-- ===== src/Options/Encoding.antt =====
-- `encoded_option_len` and `encode_options` of src/oscore/option.c, which the AAD uses for its
-- class I options.
use zephyr_uoscore_uedhoc.Prelude.{
  ℕ, ◌+◌, ◌*◌, ◌/◌, ◌%◌, ◌≡◌, refl, List, [], ◌∷◌, ◌++◌, ltb, if◌then◌else◌, length, bit_or, u8,
  u16, u32, sub32,
}
use zephyr_uoscore_uedhoc.Memory.{Bytes, Result, ok, ◌>>=◌, store, append_s}
use zephyr_uoscore_uedhoc.Coap.{CoapOption}
use zephyr_uoscore_uedhoc.Options.{OptionClass, class_i, option_belongs_to_class, option_field_len}

-- The loop, from the sum of the deltas and the length so far.
unfoldable pub encoded_len_from : OptionClass → ℕ → ℕ → List CoapOption → ℕ
encoded_len_from class total_delta len [] = len
encoded_len_from class total_delta len (o ∷ os) =
    let code = u16 (total_delta + o.delta) in
    let counted = u32 (len + 1 + option_field_len o.delta + option_field_len o.len + o.len) in
    encoded_len_from class code (if option_belongs_to_class code class then counted else len) os

unfoldable pub encoded_option_len : List CoapOption → OptionClass → ℕ
encoded_option_len options class = encoded_len_from class 0 0 options

-- The first byte and the extended bytes in front of a value.
unfoldable pub encode_header : ℕ → ℕ → Bytes
unfolding option_field_len
encode_header delta length =
    let nibble = λ (n : ℕ). if ltb n 13 then n else if ltb n 269 then 13 else 14 in
    let extended = λ (n : ℕ).
      if ltb n 13
      then []
      else if ltb n 269
      then u8 (sub32 n 13) ∷ []
      else (sub32 n 269 / 256 % 256) ∷ (sub32 n 269 % 256) ∷ [] in
    bit_or (u8 (nibble delta * 16)) (nibble length) ∷ (extended delta ++ extended length)

-- The loop: the class is tested on the delta since the last option of the class.
unfoldable pub encode_from : OptionClass → ℕ → ℕ → Bytes → List CoapOption → Result Bytes
unfolding encode_header
encode_from class cap skipped_delta out [] = ok out
encode_from class cap skipped_delta out (o ∷ os) =
    let delta = u16 (o.delta + skipped_delta) in
    let skip = encode_from class cap (u16 (skipped_delta + o.delta)) out os in
    let emit = (do
      headed ← store cap out (encode_header delta o.len)
      filled ← append_s cap headed (sub32 cap (length headed)) o.value o.len
      encode_from class cap 0 filled os) in
    if option_belongs_to_class delta class then emit else skip

unfoldable pub encode_options : List CoapOption → OptionClass → ℕ → Result Bytes
encode_options options class out_buf_len = encode_from class out_buf_len 0 [] options

-- No option is of class I, so the AAD's option string is empty.
pub encoded_option_len-class_i :
    (os : List CoapOption) (total len : ℕ) → encoded_len_from class_i total len os ≡ len
unfolding encoded_len_from option_belongs_to_class
encoded_option_len-class_i [] total len = refl
encoded_option_len-class_i (o ∷ os) total len =
    encoded_option_len-class_i os (u16 (total + o.delta)) len

pub encode_options-class_i :
    (os : List CoapOption) (size skipped : ℕ) (out : Bytes)
    → encode_from class_i size skipped out os ≡ ok out
unfolding encode_from option_belongs_to_class
encode_options-class_i [] size skipped out = refl
encode_options-class_i (o ∷ os) size skipped out =
    encode_options-class_i os size (u16 (skipped + o.delta)) out
