-- ===== src/Coap/RoundTrip.antt =====
-- The parsers of option byte strings (src/oscore/oscore_coap.c, src/oscore/oscore2coap.c) on what
-- `options_into_byte_string` writes.
use zephyr_uoscore_uedhoc.Prelude.{
  ℕ, List, [], arith, if◌then◌else◌, u8, ◌%◌, ◌*◌, ◌++◌, ◌+◌, ◌/◌, ◌<◌, ◌==◌, ◌∷◌, ◌≡◌, All,
  append_assoc, false, leb, length, length-append, le→ltb, ltb, lt→ltb, suc, true, u16, zero, ◌≤◌,
}
use zephyr_uoscore_uedhoc.Coap.Encode.{
  extra_bytes, field_bytes, field_nibble, option_header, options_into_byte_string,
}
use zephyr_uoscore_uedhoc.Coap.{CoapOption}
use zephyr_uoscore_uedhoc.Coap.Layout.{
  IsEncodable, layout, extra_bytes_le, length-layout_le, length-layout-cons,
  options_into_byte_string-layout,
}
use zephyr_uoscore_uedhoc.Memory.{
  Bytes, Err, ok, oscore_inpkt_invalid_option_delta, oscore_inpkt_invalid_optionlen,
}
use zephyr_uoscore_uedhoc.Coap.Fields.{field_nibble_bound, option_header_lem, read_field_packet}
use zephyr_uoscore_uedhoc.Coap.Decode.{
  Extension, parse_option, read_field, options_loop, oscore_packet_options_parser,
  packet_options_extension,
}
use zephyr_uoscore_uedhoc.Memory.Laws.{drop_prefix}
use zephyr_uoscore_uedhoc.Coap.Packet.{max_options_len}

-- The parser reads back every delta of an uint8_t, and every length below `limit`.
pub record Inverts (x : Extension) (limit : ℕ) : Type 0 where
  pub delta_back :
      (reserved : Err) (n : ℕ) (p : Bytes)
      → n < 256
      → read_field x.delta_one x.delta_two reserved (field_nibble n) (field_bytes n ++ p)
        ≡ ok (record { value = n; extra = extra_bytes n; next = p })
  pub len_back :
      (reserved : Err) (n : ℕ) (p : Bytes)
      → n < limit
      → read_field x.len_one x.len_two reserved (field_nibble n) (field_bytes n ++ p)
        ≡ ok (record { value = n; extra = extra_bytes n; next = p })

-- Every option number is the sum of the deltas up to it, in an uint8_t.
abbrev pub Numbered : ℕ → List CoapOption → Type 0
Numbered number [] = Unit
Numbered number (o ∷ os) = (o.option_number ≡ u8 (number + o.delta)) × Numbered o.option_number os

-- The option as it is parsed: its value is a pointer to the value and what follows it.
abbrev pub pointing : CoapOption → Bytes → CoapOption
pointing o tail = record o { value = if o.len == 0 then [] else o.value ++ tail }

abbrev pub pointing_all : List CoapOption → Bytes → List CoapOption
pointing_all [] rest = []
pointing_all (o ∷ os) rest = pointing o (layout os ++ rest) ∷ pointing_all os rest

-- An option that the parser with limit `limit` reads back.
abbrev pub Reads : ℕ → CoapOption → Type 0
Reads limit o = IsEncodable o × (o.len < limit)

All-Reads : (os : List CoapOption) → All IsEncodable os → All (Reads 256) os
All-Reads [] h = tt
All-Reads (o ∷ os) (e, h) = ((e, e.len_lt), All-Reads os h)

module _ (x : Extension) (limit : ℕ) (back : Inverts x limit) where
  parse_option-encoded :
      (o : CoapOption) (number : ℕ) (tail : Bytes)
      → Reads limit o
      → o.option_number ≡ u8 (number + o.delta)
      → parse_option x number (option_header o.delta o.len ++ (o.value ++ tail))
        ≡ ok (record {
          option = pointing o tail;
          advance = 1 + extra_bytes o.delta + extra_bytes o.len + o.len;
          next = tail;
        })
  unfolding parse_option
  parse_option-encoded o number tail (e, lt) n =
      let d = field_nibble_bound o.delta in
      let l = field_nibble_bound o.len in
      let dx = extra_bytes_le o.delta in
      let lx = extra_bytes_le o.len in
      let dlt : o.delta < 256 = e.delta_lt in
      let hi : (field_nibble o.delta * 16 + field_nibble o.len) / 16 % 16 ≡ field_nibble o.delta =
        omega arith in
      let lo : (field_nibble o.delta * 16 + field_nibble o.len) % 16 ≡ field_nibble o.len =
        omega arith in
      let extra : u8 (u8 (1 + extra_bytes o.delta) + extra_bytes o.len)
          ≡ 1 + extra_bytes o.delta + extra_bytes o.len =
        omega arith in
      rw (option_header_lem o.delta o.len, hi, lo)
        (rw (
          append_assoc,
          back.delta_back oscore_inpkt_invalid_option_delta o.delta
              (field_bytes o.len ++ (o.value ++ tail)) dlt,
          back.len_back oscore_inpkt_invalid_optionlen o.len (o.value ++ tail) lt,
          drop_prefix o.len o.value tail e.value_len,
          extra,
          ← n,
        ))

  pub options_loop-layout :
      (os : List CoapOption) (size fuel i in_len number count : ℕ) (rest : Bytes)
      → All (Reads limit) os
      → Numbered number os
      → in_len ≡ i + length (layout os)
      → in_len < 65536
      → length (layout os) < fuel
      → count + length os ≤ size
      → options_loop x size fuel in_len i number count (layout os ++ rest)
        ≡ ok (pointing_all os rest)
  unfolding options_loop
  options_loop-layout os size zero i in_len number count rest h n e lt f c = absurd (omega arith)
  options_loop-layout [] size (suc fuel) i in_len number count rest h n e lt f c =
      let stop : ltb i in_len ≡ false = le→ltb i in_len (omega arith) in rw stop
  options_loop-layout (o ∷ os) size (suc fuel) i in_len number count rest (r, h) (m, n) e lt f c =
      let lens = length-layout-cons o os r.0 in
      let more : ltb i in_len ≡ true = lt→ltb i in_len (omega arith) in
      let room : leb (suc count) size ≡ true = ground arith in
      let next : u16 (i + (1 + extra_bytes o.delta + extra_bytes o.len + o.len))
          ≡ i + (1 + extra_bytes o.delta + extra_bytes o.len + o.len) =
        omega arith in
      rw (
        more,
        append_assoc,
        append_assoc,
        parse_option-encoded o number (layout os ++ rest) r m,
        room,
        next,
        options_loop-layout os size fuel (i + (1 + extra_bytes o.delta + extra_bytes o.len + o.len))
            in_len o.option_number (suc count) rest h n (omega arith) lt (omega arith)
            (omega arith),
      )

packet-Inverts : Inverts packet_options_extension 256
packet-Inverts = record { delta_back = read_field_packet; len_back = read_field_packet }

-- The options of a decrypted plaintext: what `options_into_byte_string` wrote, with any bytes
-- behind it, `oscore_packet_options_parser` reads back, deltas, lengths, numbers and pointers to
-- the values, where every delta and length is that of an uint8_t, the numbers are the sums of
-- the deltas, and the array has room.
pub oscore_packet_options_parser-layout :
    (os : List CoapOption) (size : ℕ) (rest : Bytes)
    → All IsEncodable os
    → Numbered 0 os
    → length os ≤ size
    → max_options_len os < 65536
    → (options_into_byte_string (max_options_len os) os (max_options_len os) ≡ ok (layout os))
      × (oscore_packet_options_parser size (layout os ++ rest) (length (layout os))
          ≡ ok (pointing_all os rest))
unfolding oscore_packet_options_parser
oscore_packet_options_parser-layout os size rest h n c lt = (
  options_into_byte_string-layout os _ _ h (omega arith) (omega arith) (omega arith),
  options_loop-layout packet_options_extension 256 packet-Inverts os size _ 0 _ 0 0 rest
      (All-Reads os h) n (omega arith) (omega (arith, length-layout_le os h))
      (omega (arith, length-append (layout os) rest)) (omega arith),
)
