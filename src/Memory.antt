-- ===== src/Memory.antt =====
-- Results and buffers: inc/common/oscore_edhoc_error.h, inc/common/byte_array.h,
-- src/common/byte_array.c and src/common/memcpy_s.c.
--
-- A pointer into a buffer is the list of the bytes from it to the end of the buffer, so a read
-- or a copy past the end is seen; NULL is the empty list, which cannot be read either.
pub mod Laws
use zephyr_uoscore_uedhoc.Prelude.{
  ℕ, ◌+◌, ◌-◌, Bool, true, false, List, [], ◌∷◌, ◌++◌, ltb, leb, ◌==◌, if◌then◌else◌, length, take,
  drop,
}

abbrev pub Bytes : Type 0
Bytes = List ℕ

-- `enum err` without `ok`, which is the constructor of a result.
pub data Err : Type 0 where
  buffer_to_small hkdf_fialed unexpected_result_from_ext_lib wrong_parameter : Err
  crypto_operation_not_implemented : Err
  error_message_received error_message_sent sign_failed sha_failed : Err
  unsupported_cipher_suite unsupported_ecdh_curve unsupported_signature_algorithm : Err
  signature_authentication_failed mac_authentication_failed : Err
  certificate_authentication_failed credential_not_found no_such_ca : Err
  cbor_encoding_error suites_i_list_to_long : Err
  oscore_unknown_hkdf oscore_invalid_algorithm_aead oscore_invalid_algorithm_hkdf : Err
  oscore_kid_recipent_id_mismatch oscore_valuelen_to_long_error oscore_inpkt_invalid_tkl : Err
  oscore_inpkt_invalid_option_delta oscore_inpkt_invalid_optionlen oscore_inpkt_invalid_piv : Err
  delta_extra_byte_error len_extra_byte_error not_valid_input_packet : Err
  replayed_packed_received : Err

-- A call returns a value, or an error code, or reads or writes outside an object (`fault`),
-- which C leaves undefined.
pub data Result {ℓ} (A : Type ℓ) : Type ℓ where
  ok : A → Result A
  err : Err → Result A
  fault : Result A

-- The macro TRY: the first error is returned.
infixl 5 ◌>>=◌
abbrev pub ◌>>=◌ {ℓ ℓ'} : {A : Type ℓ} {B : Type ℓ'} → Result A → (A → Result B) → Result B
fault >>= next = fault
err code >>= next = err code
ok value >>= next = next value

infixl 5 ◌>>◌
abbrev pub ◌>>◌ {ℓ} : {A : Type ℓ} → Result (Unit {0}) → Result A → Result A
check >> next = check >>= λ _. next

-- `struct byte_array`
pub record ByteArray : Type 0 where
  pub len : ℕ
  pub ptr : Bytes

-- The array of a buffer's whole content.
abbrev pub of_bytes : Bytes → ByteArray
of_bytes b = record { len = length b; ptr = b }

-- `*p`
unfoldable pub deref : Bytes → Result ℕ
deref [] = fault
deref (b ∷ _) = ok b

-- The `n` bytes at `p`.
unfoldable pub read : ℕ → Bytes → Result Bytes
read n p = if leb n (length p) then ok (take n p) else fault

unfoldable pub check_buffer_size : ℕ → ℕ → Result (Unit {0})
check_buffer_size is_size required_size =
    if ltb is_size required_size then err buffer_to_small else ok tt

-- `_memcpy_s` into a buffer that holds `dest`: its content afterwards.
unfoldable pub memcpy_s : Bytes → ℕ → Bytes → ℕ → Result Bytes
unfolding check_buffer_size read
memcpy_s dest dest_len source source_len = do
  check_buffer_size dest_len source_len
  bytes ← read source_len source
  ok (bytes ++ drop source_len dest)

-- `_memcpy_s` to the start of a buffer of `dest_len` bytes: the bytes that it holds of the copy.
unfoldable pub copy_s : ℕ → Bytes → ℕ → Result Bytes
unfolding check_buffer_size read
copy_s dest_len source source_len = do check_buffer_size dest_len source_len; read source_len source

-- A copy of a whole array into the buffer of another, which takes over its length.
unfoldable pub copy_array : ByteArray → ℕ → ByteArray → Result ByteArray
unfolding memcpy_s
copy_array dest dest_len source = do
  ptr ← memcpy_s dest.ptr dest_len source.ptr source.len
  ok (record { len = source.len; ptr = ptr })

-- Unchecked stores behind the bytes `out` written so far, in an array of `cap` bytes.
unfoldable pub store : ℕ → Bytes → Bytes → Result Bytes
store cap out bytes = if leb (length out + length bytes) cap then ok (out ++ bytes) else fault

-- `_memcpy_s` to the place behind the bytes written so far.
unfoldable pub append_s : ℕ → Bytes → ℕ → Bytes → ℕ → Result Bytes
unfolding check_buffer_size read store
append_s cap out dest_len source source_len = do
  check_buffer_size dest_len source_len
  bytes ← read source_len source
  store cap out bytes

-- The loop of `array_equals` over `n` bytes.
unfoldable pub array_equals_from : ℕ → Bytes → Bytes → Result Bool
array_equals_from n [] right = if n == 0 then ok true else fault
array_equals_from n (x ∷ left) [] = if n == 0 then ok true else fault
array_equals_from n (x ∷ left) (y ∷ right) =
    let rest = array_equals_from (n - 1) left right in
    if n == 0 then ok true else if x == y then rest else ok false

unfoldable pub array_equals : ByteArray → ByteArray → Result Bool
unfolding array_equals_from
array_equals left right =
    if left.len == right.len then array_equals_from left.len left.ptr right.ptr else ok false
