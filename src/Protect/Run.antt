-- ===== src/Protect/Run.antt =====
-- `coap2oscore` of src/oscore/coap2oscore.c.
use zephyr_uoscore_uedhoc.Context.{client}
use zephyr_uoscore_uedhoc.Prelude.{ℕ, if◌then◌else◌, ◌%◌, ◌&&◌, ◌+◌, ◌==◌, ◌^◌}
use zephyr_uoscore_uedhoc.Context.{◌>>=◌, ◌>>◌, Action, call, modify, pure, reads}
use zephyr_uoscore_uedhoc.Coap.Packet.{Output, buf2coap, coap2buf}
use zephyr_uoscore_uedhoc.Context.Piv.{sender_seq_num2piv}
use zephyr_uoscore_uedhoc.Protect.{code_empty, is_request_code, type_ack}
use zephyr_uoscore_uedhoc.Memory.{ByteArray, Bytes, ok}
use zephyr_uoscore_uedhoc.Crypto.{External}
use zephyr_uoscore_uedhoc.Protect.Parts.{oscore_pkg_generate}
use zephyr_uoscore_uedhoc.Context.Update.{context_update, set_piv}
use zephyr_uoscore_uedhoc.Context.Derive.{empty_array}
use zephyr_uoscore_uedhoc.OscoreOption.{OscoreOption}
use zephyr_uoscore_uedhoc.Coap.{CoapPacket}
use zephyr_uoscore_uedhoc.Protect.Extract.{e_u_options_extract}
use zephyr_uoscore_uedhoc.Protect.Steps.{
  dismiss, make_plaintext, plaintext_encrypt, plaintext_length, request_option, response_option,
}

-- Post-increment of the sequence number, an uint64_t: the value before.
unfoldable pub next_seq_num : Action ℕ
next_seq_num c = (
  ok c.sc.sender_seq_num,
  record c { sc = record (c.sc) { sender_seq_num = (c.sc.sender_seq_num + 1) % 2 ^ 64 } },
)

-- The sequence number becomes the PIV of the request.
unfoldable pub update_request_piv : Action (Unit {0})
unfolding next_seq_num
update_request_piv = do
  ssn ← next_seq_num
  piv ← reads (λ c. sender_seq_num2piv ssn c.rrc.piv)
  modify (set_piv piv)

module _ (ex : External) where
  unfoldable pub oscore_option_for : CoapPacket → Bytes → Action OscoreOption
  unfolding update_request_piv
  oscore_option_for p buf =
      if is_request_code p.header.code
      then (do
        update_request_piv
        context_update ex client p.options empty_array empty_array
        reads (request_option buf))
      else pure response_option

  -- A packet that is not an empty acknowledgement. `cap` is the size of the output buffer.
  unfoldable pub protect_packet : CoapPacket → Bytes → ℕ → Action Output
  protect_packet p buf cap = do
    let s = e_u_options_extract p.options
    plaintext ← call (make_plaintext p s)
    o ← oscore_option_for p buf
    ciphertext ← reads (plaintext_encrypt ex plaintext (plaintext_length p s.e_options_len))
    oscore_pkt ← call (oscore_pkg_generate p s.u_options ciphertext o)
    call (coap2buf oscore_pkt cap)

  -- `pkt` and `buf` are the local packet and the option's buffer before they are written.
  unfoldable pub coap2oscore : CoapPacket → Bytes → ByteArray → ℕ → Action Output
  coap2oscore pkt buf in_ cap = do
    p ← call (buf2coap in_ pkt)
    if p.header.code == code_empty && p.header.type == type_ack
        then call (dismiss in_ cap)
        else protect_packet p buf cap
