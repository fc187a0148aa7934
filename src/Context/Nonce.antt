-- ===== src/Context/Nonce.antt =====
-- `create_nonce` of src/oscore/nonce.c.
use zephyr_uoscore_uedhoc.Prelude.{
  ℕ, zero, suc, ◌-◌, [], ◌∷◌, ◌++◌, leb, if◌then◌else◌, replicate, bit_xor, u8,
}
use zephyr_uoscore_uedhoc.Memory.{Bytes, ByteArray, Result, ok, fault, ◌>>=◌, read}
use zephyr_uoscore_uedhoc.Coap.{max_piv_len}
use zephyr_uoscore_uedhoc.Context.{nonce_len}

-- A copy to `&padded[size - len]`, which lies in front of the array where `len` exceeds its
-- size; the copy's own size check compares `len` with itself.
unfoldable pub left_pad : ℕ → ByteArray → Result Bytes
unfolding read
left_pad size a = do
  bytes ← read a.len a.ptr
  if leb a.len size then ok (replicate (size - a.len) 0 ++ bytes) else fault

-- The loop over `n` bytes; both arrays are read in each round.
unfoldable pub xor_bytes : ℕ → Bytes → Bytes → Result Bytes
xor_bytes zero xs ys = ok xs
xor_bytes (suc n) [] ys = fault
xor_bytes (suc n) (x ∷ xs) [] = fault
xor_bytes (suc n) (x ∷ xs) (y ∷ ys) = do rest ← xor_bytes n xs ys; ok (bit_xor x y ∷ rest)

-- `nonce->ptr` points to a buffer of NONCE_LEN bytes.
unfoldable pub create_nonce : ByteArray → ByteArray → ByteArray → ByteArray → Result ByteArray
unfolding left_pad xor_bytes
create_nonce id_piv piv common_iv nonce = do
  padded_piv ← left_pad max_piv_len piv
  padded_id_piv ← left_pad (nonce_len - max_piv_len - 1) id_piv
  ptr ← xor_bytes common_iv.len (u8 id_piv.len ∷ (padded_id_piv ++ padded_piv)) common_iv.ptr
  ok (record { len = nonce.len; ptr = ptr })
