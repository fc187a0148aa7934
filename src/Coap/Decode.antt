-- ===== src/Coap/Decode.antt =====
-- The two parsers of an option byte string: `buf2options` of src/oscore/oscore_coap.c and
-- `oscore_packet_options_parser` of src/oscore/oscore2coap.c. They are one loop, and differ in
-- the arithmetic on the extended delta and length bytes.
use zephyr_uoscore_uedhoc.Prelude.{
  ℕ, zero, suc, ◌+◌, ◌*◌, ◌/◌, ◌%◌, List, [], ◌∷◌, ltb, leb, ◌==◌, if◌then◌else◌, length, drop, u8,
  u16, sub8,
}
use zephyr_uoscore_uedhoc.Memory.{
  Bytes, Err, Result, ok, err, fault, ◌>>=◌, deref, oscore_inpkt_invalid_option_delta,
  oscore_inpkt_invalid_optionlen,
}
use zephyr_uoscore_uedhoc.Coap.{CoapOption}

-- What a parser makes of one or two extended bytes, for the delta and for the length.
pub record Extension : Type 0 where
  pub delta_one : ℕ → ℕ
  pub delta_two : ℕ → ℕ → ℕ
  pub len_one : ℕ → ℕ
  pub len_two : ℕ → ℕ → ℕ

-- A delta or length as read: its value, the header bytes it took, and the pointer behind them.
pub record Field : Type 0 where
  pub value : ℕ
  pub extra : ℕ
  pub next : Bytes

-- The `switch` on a nibble of the first byte.
unfoldable pub read_field : (ℕ → ℕ) → (ℕ → ℕ → ℕ) → Err → ℕ → Bytes → Result Field
unfolding deref
read_field one two reserved nibble p =
    if nibble == 13
    then (do b ← deref p; ok (record { value = one b; extra = 1; next = drop 1 p }))
    else if nibble == 14
    then (do
      hi ← deref p
      lo ← deref (drop 1 p)
      ok (record { value = two hi lo; extra = 2; next = drop 2 p }))
    else if nibble == 15
    then err reserved
    else ok (record { value = nibble; extra = 0; next = p })

-- An option, the bytes that the counter `i` advances by, and the pointer to the next option.
pub record Parsed : Type 0 where
  pub option : CoapOption
  pub advance : ℕ
  pub next : Bytes

-- One round of the loop; `number` is the option number before it.
unfoldable pub parse_option : Extension → ℕ → Bytes → Result Parsed
unfolding deref
parse_option x number p = do
  first ← deref p
  delta ←
      read_field x.delta_one x.delta_two oscore_inpkt_invalid_option_delta (first / 16 % 16)
        (drop 1 p)
  len ← read_field x.len_one x.len_two oscore_inpkt_invalid_optionlen (first % 16) delta.next
  ok (record {
    option = record {
      delta = delta.value;
      len = len.value;
      value = if len.value == 0 then [] else len.next;
      option_number = u8 (number + delta.value);
    };
    advance = u8 (u8 (1 + delta.extra) + len.extra) + len.value;
    next = drop len.value len.next;
  })

-- The loop `while (i < in_data_len)`, on fuel; `count` options are stored in an array of `cap`.
-- A store behind the array's end is a fault.
unfoldable pub options_loop : Extension → ℕ → ℕ → ℕ → ℕ → ℕ → ℕ → Bytes → Result (List CoapOption)
options_loop x cap zero in_data_len i number count p = fault
options_loop x cap (suc fuel) in_data_len i number count p =
    let round = (do
      o ← parse_option x number p
      let room = leb (suc count) cap
      let rest =
          options_loop x cap fuel in_data_len (u16 (i + o.advance)) o.option.option_number
            (suc count) o.next
      if room then (do os ← rest; ok (o.option ∷ os)) else fault) in
    if ltb i in_data_len then round else ok []

-- `buf2options`: delta bytes less 13 or 269, length bytes plus 13 or 269, in uint8_t. The upper
-- of two bytes is shifted out of an uint8_t.
abbrev pub buf2options_extension : Extension
buf2options_extension = record {
  delta_one = λ b. sub8 b 13;
  delta_two = λ hi lo. sub8 lo 269;
  len_one = λ b. u8 (b + 13);
  len_two = λ hi lo. u8 (lo + 269);
}

-- Each round reads a byte at least, so the length of the buffer is fuel enough.
unfoldable pub buf2options : ℕ → Bytes → ℕ → Result (List CoapOption)
buf2options cap in_data in_data_len =
    options_loop buf2options_extension cap (suc (length in_data)) in_data_len 0 0 0 in_data

-- `oscore_packet_options_parser`: both kinds of bytes less 13 or 269.
abbrev pub packet_options_extension : Extension
packet_options_extension = record {
  delta_one = λ b. sub8 b 13;
  delta_two = λ hi lo. sub8 (hi * 256 + lo) 269;
  len_one = λ b. sub8 b 13;
  len_two = λ hi lo. sub8 (hi * 256 + lo) 269;
}

unfoldable pub oscore_packet_options_parser : ℕ → Bytes → ℕ → Result (List CoapOption)
oscore_packet_options_parser cap in_data in_data_len =
    options_loop packet_options_extension cap (suc (length in_data)) in_data_len 0 0 0 in_data
