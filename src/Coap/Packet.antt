-- ===== src/Coap/Packet.antt =====
-- `buf2coap` and `coap2buf` of src/oscore/oscore_coap.c.
use zephyr_uoscore_uedhoc.Prelude.{
  ℕ, ◌+◌, ◌*◌, ◌/◌, ◌%◌, List, [], ◌∷◌, ltb, leb, ◌==◌, if◌then◌else◌, length, drop, bit_or, u8,
  u16, u32, sub32,
}
use zephyr_uoscore_uedhoc.Memory.{
  Bytes, ByteArray, Result, ok, err, fault, ◌>>=◌, ◌>>◌, deref, check_buffer_size, store, append_s,
  not_valid_input_packet, oscore_inpkt_invalid_tkl,
}
use zephyr_uoscore_uedhoc.Coap.{
  CoapHeader, CoapOption, CoapPacket, max_option_count, max_coap_options_len,
}
use zephyr_uoscore_uedhoc.Coap.Decode.{buf2options}
use zephyr_uoscore_uedhoc.Coap.Encode.{options_into_byte_string}

abbrev pub header_len : ℕ
header_len = 4

-- The first four bytes. The mask of the token length is HEADER_CODE_MASK, 0x0F.
unfoldable pub read_header : Bytes → Result CoapHeader
unfolding deref
read_header p = do
  first ← deref p
  code ← deref (drop 1 p)
  mid_l ← deref (drop 3 p)
  mid_h ← deref (drop 2 p)
  ok (record {
    ver = first / 64 % 4;
    type = first / 16 % 4;
    tkl = first % 16;
    code = code;
    mid = u16 (mid_h * 256 + mid_l);
  })

-- The reading position: the pointer `tmp_p` and `payload_len`.
pub record Cursor : Type 0 where
  pub ptr : Bytes
  pub left : ℕ

-- The token is left as it was where nothing follows the header.
unfoldable pub read_token : CoapPacket → Cursor → Result (CoapPacket × Cursor)
read_token out c =
    let tkl = out.header.tkl in
    let behind : Cursor = record { ptr = drop tkl c.ptr; left = sub32 c.left tkl } in
    if c.left == 0
    then ok (out, c)
    else if tkl == 0
    then ok (record out { token = [] }, behind)
    else if leb tkl 8
    then ok (record out { token = c.ptr }, behind)
    else err oscore_inpkt_invalid_tkl

-- The length of the options and the position behind them.
pub record Scan : Type 0 where
  pub options_len : ℕ
  pub stop : Cursor

-- The loop that looks for 0xFF; `left` is not 0 on entry. It reads past the end of a buffer
-- that is shorter than `left`.
unfoldable pub scan_options : ℕ → ℕ → Bytes → Result Scan
scan_options n left [] = fault
scan_options n left (b ∷ p) =
    let rest = scan_options (u16 (n + 1)) (sub32 left 1) p in
    if b == 0xFF
    then ok (record { options_len = n; stop = record { ptr = b ∷ p; left = left } })
    else if sub32 left 1 == 0
    then ok (record { options_len = u16 (n + 1); stop = record { ptr = p; left = 0 } })
    else rest

-- The options behind the first byte, which is not the marker.
unfoldable pub parse_options : CoapPacket → Cursor → Result (CoapPacket × Cursor)
parse_options out c = do
  s ← scan_options 0 c.left c.ptr
  options ←
      (if ltb 0 s.options_len then buf2options max_option_count c.ptr s.options_len else ok [])
  ok (record out { options = options }, s.stop)

-- The options are left as they were where nothing follows the token.
unfoldable pub read_options : CoapPacket → Cursor → Result (CoapPacket × Cursor)
unfolding deref
read_options out c = if c.left == 0 then ok (out, c) else (do
  b ← deref c.ptr
  if b == 0xFF then ok (record out { options = [] }, c) else parse_options out c)

unfoldable pub read_payload : CoapPacket → Cursor → CoapPacket
read_payload out c =
    if c.left == 0
    then record out { payload_len = 0; payload = [] }
    else record out { payload_len = sub32 c.left 1; payload = drop 1 c.ptr }

-- `out` is the caller's packet before the call: members that no branch sets keep their value.
unfoldable pub buf2coap : ByteArray → CoapPacket → Result CoapPacket
unfolding read_payload
buf2coap in_ out = if ltb in_.len header_len then err not_valid_input_packet else (do
  h ← read_header in_.ptr
  let start : Cursor = record { ptr = drop 4 in_.ptr; left = sub32 in_.len 4 }
  t ← read_token (record out { header = h }) start
  o ← read_options t.0 t.1
  ok (read_payload o.0 o.1))

-- The four header bytes.
unfoldable pub header_bytes : CoapHeader → Bytes
header_bytes h =
    u8 (bit_or (bit_or (h.ver * 64) (h.type * 16)) h.tkl)
    ∷ h.code
    ∷ (h.mid / 256 % 256)
    ∷ (h.mid % 256)
    ∷ []

-- The most that the options can take, five bytes and the value each.
unfoldable pub max_options_len : List CoapOption → ℕ
max_options_len [] = 0
max_options_len (o ∷ os) = (5 + o.len) + max_options_len os

-- What coap2buf leaves: the bytes stored and `*out_byte_string_len`.
pub record Output : Type 0 where
  pub bytes : Bytes
  pub len : ℕ

unfoldable pub write_token : ℕ → CoapPacket → Bytes → Result Bytes
unfolding append_s
write_token cap p out =
    if ltb 0 p.header.tkl
    then append_s cap out (sub32 cap (length out)) p.token p.header.tkl
    else ok out

unfoldable pub write_payload : ℕ → CoapPacket → Bytes → Result Bytes
unfolding store append_s
write_payload cap p out = if p.payload_len == 0 then ok out else (do
  marked ← store cap out (0xFF ∷ [])
  append_s cap marked (sub32 cap (length marked)) p.payload p.payload_len)

-- `cap` is `*out_byte_string_len` on entry, the size of the caller's buffer.
unfoldable pub coap2buf : CoapPacket → ℕ → Result Output
unfolding store append_s check_buffer_size header_bytes write_token write_payload
coap2buf p cap = do
  headed ← store cap [] (header_bytes p.header)
  tokened ← write_token cap p headed
  check_buffer_size max_coap_options_len (u32 (max_options_len p.options))
  options ←
      options_into_byte_string max_coap_options_len p.options (u32 (max_options_len p.options))
  optioned ← append_s cap tokened (sub32 cap (length tokened)) options (length options)
  bytes ← write_payload cap p optioned
  let base = 4 + p.header.tkl + length options
  ok (record {
    bytes = bytes;
    len = u32 (if p.payload_len == 0 then base else base + 1 + p.payload_len);
  })
