-- ===== src/Coap/Fields.antt =====
-- One delta or length of an option: what `options_into_byte_string` writes for it, and what the
-- two parsers read back.
use zephyr_uoscore_uedhoc.Prelude.{
  ℕ, arith, ◌*◌, ◌++◌, ◌+◌, ◌<◌, ◌∷◌, ◌≡◌, bit_or, bit_or_nibbles, u8, [], ◌∙◌,
}
use zephyr_uoscore_uedhoc.Coap.Encode.{extra_bytes, field_bytes, field_nibble, option_header}
use zephyr_uoscore_uedhoc.Memory.{Bytes, Err, ok}
use zephyr_uoscore_uedhoc.Coap.Decode.{packet_options_extension, read_field}

pub field_nibble_bound : (n : ℕ) → field_nibble n < 15
unfolding field_nibble
field_nibble_bound n = ground arith

header_byte : (a b : ℕ) → a < 16 → b < 16 → bit_or (u8 (a * 16)) (u8 b) ≡ a * 16 + b
header_byte a b h k =
    let e : u8 (a * 16) ≡ a * 16 = omega arith in
    let f : u8 b ≡ b = omega arith in rw (e, f) (bit_or_nibbles a b h k)

header_byte_nibble : (a b : ℕ) → a < 16 → b < 16 → bit_or (u8 (a * 16)) b ≡ a * 16 + b
header_byte_nibble a b h k =
    let e : u8 (a * 16) ≡ a * 16 = omega arith in rw e (bit_or_nibbles a b h k)

-- The first byte and the extended bytes, whichever way the two fields fall.
pub option_header_lem :
    (delta len : ℕ)
    → option_header delta len
      ≡ (field_nibble delta * 16 + field_nibble len) ∷ (field_bytes delta ++ field_bytes len)
unfolding option_header
option_header_lem delta len = ground (
  arith,
  header_byte delta len,
  header_byte_nibble (field_nibble delta) (field_nibble len),
  field_nibble_bound delta,
  field_nibble_bound len,
)

-- Short fields stand in the first byte.
pub option_header_small :
    (delta len : ℕ) → delta < 13 → len < 13 → option_header delta len ≡ (delta * 16 + len) ∷ []
unfolding field_nibble field_bytes
option_header_small delta len h k =
    let d : field_nibble delta ≡ delta = ground arith in
    let l : field_nibble len ≡ len = ground arith in
    let no_d : field_bytes delta ≡ [] = ground arith in
    let no_l : field_bytes len ≡ [] = ground arith in
    option_header_lem delta len ∙ rw (d, l, no_d, no_l)

pub read_field_packet :
    (reserved : Err) (n : ℕ) (p : Bytes)
    → n < 256
    → read_field packet_options_extension.delta_one packet_options_extension.delta_two reserved
        (field_nibble n)
        (field_bytes n ++ p)
      ≡ ok (record { value = n; extra = extra_bytes n; next = p })
unfolding read_field field_nibble field_bytes extra_bytes
read_field_packet reserved n p h = ground arith
