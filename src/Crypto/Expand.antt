-- ===== src/Crypto/Expand.antt =====
-- The HKDF of src/common/crypto_wrapper.c for one block, which is all that OSCORE derives: keys
-- of 16 bytes and an IV of 13.
use zephyr_uoscore_uedhoc.Prelude.{
  ℕ, length, ◌++◌, ◌≡◌, ◌≤◌, ◌<◌, some, take, replicate, if◌then◌else◌, ◌==◌, ◌∷◌, [], arith,
  Bool-cases, inl, inr, ltb, take_all, u32, ◌%◌, ◌+◌, ◌/◌, suc, length-take_le, Option, ap, none,
}
use zephyr_uoscore_uedhoc.Memory.{Bytes, of_bytes, ok, read, store}
use zephyr_uoscore_uedhoc.Crypto.{External}
use zephyr_uoscore_uedhoc.Crypto.Wrapper.{
  hkdf_sha_256, hkdf_extract, hkdf_expand, expand_loop, expect,
}
use zephyr_uoscore_uedhoc.Memory.Laws.{ok_inj}

-- The key of HKDF-Extract: the salt, or zeros where there is none.
abbrev pub salt_key : Bytes → Bytes
salt_key salt = if length salt == 0 then replicate 32 0 else salt

pub read_whole : (xs : Bytes) → read (length xs) xs ≡ ok xs
unfolding read
read_whole xs = ground (arith, take_all (length xs) xs)

one_block :
    (t : Bytes) (n : ℕ)
    → 0 < n
    → n ≤ 32
    → length t ≡ 32
    → read (if ltb n 32 then n % 32 else 32) t ≡ ok (take n t)
unfolding read
one_block t n pos le l = ground arith

module _ (ex : External) where
  extract_salt :
      (secret salt prk : Bytes)
      → ex.tc_hmac (salt_key salt) secret ≡ some prk
      → hkdf_extract ex (of_bytes salt) (of_bytes secret) ≡ ok prk
  unfolding hkdf_extract
  extract_salt secret salt prk e = elim (Bool-cases (length salt == 0)) [
    | inl none_given ↦
        let e' : ex.tc_hmac (replicate 32 0) secret ≡ some prk = rw none_given at e in
        rw (none_given, read_whole secret, e')
    | inr given ↦
        let e' : ex.tc_hmac salt secret ≡ some prk = rw given at e in
        rw (given, read_whole salt, read_whole secret, e')
  ]

  expand_one :
      (prk info t z : Bytes) (fuel n : ℕ)
      → 0 < n
      → n ≤ 32
      → ex.tc_hmac prk (info ++ 1 ∷ []) ≡ some t
      → length t ≡ 32
      → expand_loop ex (suc (suc fuel)) 1 1 prk (of_bytes info) n z [] ≡ ok (take n t)
  unfolding expand_loop store
  expand_one prk info t z fuel n pos le f l =
      let whole : length (take n t) ≡ n = length-take_le n t (omega arith) in
      rw (read_whole info, f, one_block t n pos le l) (ground arith)

  -- A key of at most 32 bytes is the first bytes of the HMAC, under the extracted key, of the
  -- info and a byte 1, as in RFC 5869, where both HMACs succeed and the second gives 32 bytes.
  pub hkdf_sha_256-hmac :
      (secret salt info prk t : Bytes) (n : ℕ)
      → 0 < n
      → n ≤ 32
      → ex.tc_hmac (salt_key salt) secret ≡ some prk
      → ex.tc_hmac prk (info ++ 1 ∷ []) ≡ some t
      → length t ≡ 32
      → hkdf_sha_256 ex (of_bytes secret) (of_bytes salt) (of_bytes info) n ≡ ok (take n t)
  unfolding hkdf_sha_256 hkdf_expand
  hkdf_sha_256-hmac secret salt info prk t n pos le e f l =
      let iterations : u32 (n + 31) / 32 ≡ 1 = omega arith in
      rw (extract_salt secret salt prk e, iterations)
        (expand_one prk info t (replicate 32 0) 255 n pos le f l)

pub expect-some {ℓ} : {A : Type ℓ} (o : Option A) (a : A) → expect o ≡ ok a → o ≡ some a
expect-some none a e = ground arith
expect-some (some b) a e = ap some (ok_inj e)
