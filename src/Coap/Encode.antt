-- ===== src/Coap/Encode.antt =====
-- `options_into_byte_string` of src/oscore/oscore_coap.c.
use zephyr_uoscore_uedhoc.Prelude.{
  ℕ, ◌+◌, ◌*◌, ◌/◌, ◌%◌, List, [], ◌∷◌, ◌++◌, ◌&&◌, ltb, if◌then◌else◌, length, bit_or, u8, u16,
  sub32,
}
use zephyr_uoscore_uedhoc.Memory.{Bytes, Result, ok, ◌>>=◌, store, append_s}
use zephyr_uoscore_uedhoc.Coap.{CoapOption}

-- `delta_extra_byte` and `len_extra_byte`
unfoldable pub extra_bytes : ℕ → ℕ
extra_bytes n = if ltb n 13 then 0 else if ltb n 243 then 1 else 2

-- The nibble of the first byte; 13 and 14 announce extended bytes.
unfoldable pub field_nibble : ℕ → ℕ
field_nibble n = if ltb n 13 then n else if ltb n 243 then 13 else 14

-- The extended bytes.
unfoldable pub field_bytes : ℕ → Bytes
field_bytes n =
    if ltb n 13
    then []
    else if ltb n 243
    then u8 (n + 13) ∷ []
    else (u16 (n + 269) / 256) ∷ (u16 (n + 269) % 256) ∷ []

-- The bytes in front of an option's value. Both extra byte counts are below 3, so neither
-- `default` of the switches is reached.
unfoldable pub option_header : ℕ → ℕ → Bytes
unfolding field_nibble field_bytes
option_header delta len =
    if ltb delta 13 && ltb len 13
    then bit_or (u8 (delta * 16)) (u8 len) ∷ []
    else bit_or (u8 (field_nibble delta * 16)) (field_nibble len)
      ∷ (field_bytes delta ++ field_bytes len)

-- The loop over the options, behind the bytes `out` written so far. `capacity` is the length
-- that the caller set, `cap` the size of the array.
unfoldable pub options_bytes : ℕ → ℕ → Bytes → List CoapOption → Result Bytes
options_bytes cap capacity out [] = ok out
options_bytes cap capacity out (o ∷ os) = do
  headed ← store cap out (option_header o.delta o.len)
  filled ← append_s cap headed (sub32 capacity (length headed)) o.value o.len
  options_bytes cap capacity filled os

unfoldable pub options_into_byte_string : ℕ → List CoapOption → ℕ → Result Bytes
options_into_byte_string cap options capacity = options_bytes cap capacity [] options
