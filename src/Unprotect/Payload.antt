-- ===== src/Unprotect/Payload.antt =====
-- `oscore_decrypted_payload_parser` of src/oscore/oscore2coap.c.
use zephyr_uoscore_uedhoc.Prelude.{
  ℕ, List, [], drop, if◌then◌else◌, ltb, not, sub32, u16, ◌&&◌, ◌+◌, ◌-◌, ◌==◌, ◌||◌, ◌∷◌,
}
use zephyr_uoscore_uedhoc.Memory.{ByteArray, Bytes, Result, deref, fault, ok, ◌>>=◌}
use zephyr_uoscore_uedhoc.Coap.{CoapOption}
use zephyr_uoscore_uedhoc.Coap.Decode.{oscore_packet_options_parser}
use zephyr_uoscore_uedhoc.Coap.Packet.{Cursor, Scan}
use zephyr_uoscore_uedhoc.Unprotect.{e_options_size}

-- The code, the E-options and the payload of a plaintext.
pub record Decrypted : Type 0 where
  pub code : ℕ
  pub e_options : List CoapOption
  pub payload : ByteArray

-- The loop `while (*temp_payload_ptr != 0xFF && temp_payload_len != 0)`, which reads a byte
-- before it tests the length.
unfoldable pub skip_options : ℕ → ℕ → Bytes → Result Scan
skip_options n left [] = fault
skip_options n left (b ∷ p) =
    let rest = skip_options (u16 (n + 1)) (left - 1) p in
    if not (b == 0xFF) && not (left == 0)
    then rest
    else ok (record { options_len = n; stop = record { ptr = b ∷ p; left = left } })

-- The options in front of the payload, and where they end.
unfoldable pub plaintext_options : Cursor → Result (List CoapOption × Cursor)
unfolding deref skip_options
plaintext_options c =
    let parse = (do
      s ← skip_options 0 c.left c.ptr
      options ←
          (if ltb 0 s.options_len
            then oscore_packet_options_parser e_options_size c.ptr s.options_len
            else ok [])
      ok (options, s.stop)) in
    (do b ← deref c.ptr; if b == 0xFF || c.left == 0 then ok ([], c) else parse)

-- `in_payload->ptr` is the array of the plaintext, with what it held before behind the
-- decrypted bytes.
unfoldable pub oscore_decrypted_payload_parser : ByteArray → Result Decrypted
unfolding deref plaintext_options
oscore_decrypted_payload_parser in_payload = do
  code ← deref in_payload.ptr
  o ← plaintext_options (record { ptr = drop 1 in_payload.ptr; left = sub32 in_payload.len 1 })
  let left = o.1.left
  ok (record {
    code = code;
    e_options = o.0;
    payload =
        if left == 0
        then record { len = 0; ptr = [] }
        else record { len = sub32 left 1; ptr = drop 1 o.1.ptr };
  })
