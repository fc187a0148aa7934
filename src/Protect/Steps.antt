-- ===== src/Protect/Steps.antt =====
-- The parts of `coap2oscore` of src/oscore/coap2oscore.c that leave the context alone.
use zephyr_uoscore_uedhoc.Prelude.{ℕ, [], if◌then◌else◌, ltb, u32, ◌+◌, ◌==◌}
use zephyr_uoscore_uedhoc.Memory.{
  ◌>>=◌, ◌>>◌, ByteArray, Bytes, Result, append_s, check_buffer_size, err, ok,
  oscore_valuelen_to_long_error,
}
use zephyr_uoscore_uedhoc.Context.{Context, auth_tag_len}
use zephyr_uoscore_uedhoc.Protect.{max_ciphertext_len, max_plaintext_len}
use zephyr_uoscore_uedhoc.Coap.{CoapPacket}
use zephyr_uoscore_uedhoc.OscoreOption.{
  OscoreOption, get_oscore_opt_val_len, oscore_opt_value_len, oscore_option_generate,
}
use zephyr_uoscore_uedhoc.Context.Cose.{oscore_cose_encrypt}
use zephyr_uoscore_uedhoc.Protect.Extract.{Split}
use zephyr_uoscore_uedhoc.Crypto.{External}
use zephyr_uoscore_uedhoc.Coap.Packet.{Output}
use zephyr_uoscore_uedhoc.Protect.Parts.{plaintext_setup}
use zephyr_uoscore_uedhoc.Options.{coap_option_oscore}

-- The OSCORE option of a request, from the request-response context. `buf` is the option's
-- buffer before the call.
unfoldable pub request_option : Bytes → Context → Result OscoreOption
request_option buf c =
    let len = get_oscore_opt_val_len c.rrc.piv c.rrc.kid c.rrc.kid_context in
    if ltb oscore_opt_value_len len
    then err oscore_valuelen_to_long_error
    else oscore_option_generate c.rrc.piv c.rrc.kid c.rrc.kid_context
        (record { option_number = coap_option_oscore; len = len; value = buf })

-- The option of a response has no value.
abbrev pub response_option : OscoreOption
response_option = record { option_number = coap_option_oscore; len = 0; value = [] }

-- The length of the plaintext as `coap2oscore` computes it.
unfoldable pub plaintext_length : CoapPacket → ℕ → ℕ
plaintext_length p e_options_len =
    if p.payload_len == 0
    then u32 (1 + e_options_len)
    else u32 (1 + e_options_len + 1 + p.payload_len)

-- The bytes of the plaintext that are stored.
unfoldable pub make_plaintext : CoapPacket → Split → Result Bytes
make_plaintext p s = do
  check_buffer_size max_plaintext_len (plaintext_length p s.e_options_len)
  plaintext_setup p s.e_options (plaintext_length p s.e_options_len)

-- Encryption with the sender key. Bytes of the plaintext that were not stored are a fault.
unfoldable pub plaintext_encrypt : External → Bytes → ℕ → Context → Result Bytes
plaintext_encrypt ex plaintext len c = do
  check_buffer_size max_ciphertext_len (u32 (len + auth_tag_len))
  oscore_cose_encrypt ex (record { len = len; ptr = plaintext }) (u32 (len + auth_tag_len))
      c.rrc.nonce c.rrc.aad c.sc.sender_key

-- An empty acknowledgement is copied; the copy is checked against the input's length only.
unfoldable pub dismiss : ByteArray → ℕ → Result Output
dismiss in_ cap = do
  bytes ← append_s cap [] in_.len in_.ptr in_.len
  ok (record { bytes = bytes; len = in_.len })
