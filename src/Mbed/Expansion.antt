-- ===== src/Mbed/Expansion.antt =====
-- `hkdf_expand` of src/common/crypto_wrapper.c in its two builds, for TinyCrypt and for Mbed TLS.
use zephyr_uoscore_uedhoc.Memory.{Bytes, of_bytes, ok, read, store}
use zephyr_uoscore_uedhoc.Mbed.{Psa, hmac_sha_256, try_expect_psa, destroy}
use zephyr_uoscore_uedhoc.Prelude.{
  Option, [], drop, if◌then◌else◌, length, ltb, some, ℕ, ◌*◌, ◌+◌, ◌<◌, ◌≡◌, ◌≤◌, Bool-cases, arith,
  inl, inr, length-append, length-take_le, ltb→le, ltb→lt, take, take_all, ◌%◌, ◌++◌, ap,
  append-nil, drop_all, false, leb, lt→ltb, refl, suc, true, u8, zero, ◌∙◌, ◌∷◌, ◌==◌, le→ltb,
  replicate, u32, ◌/◌,
}
use zephyr_uoscore_uedhoc.Crypto.Wrapper.{expand_loop, hkdf_expand}
use zephyr_uoscore_uedhoc.Mbed.Wrapper.{hmac_attributes, psa_rounds, hkdf_expand_psa}
use zephyr_uoscore_uedhoc.Crypto.{External}
use zephyr_uoscore_uedhoc.Crypto.Expand.{read_whole}
use zephyr_uoscore_uedhoc.Edhoc.Suites.{sha_256}

-- Both libraries compute one HMAC of 32 bytes, and the calls of Mbed TLS that are used for it
-- succeed. `content` is the key behind an identifier.
pub record SameHmac {Store Mpi : Type 0} (ex : External) (psa : Psa Store Mpi)
    (hmac : Bytes → Bytes → Bytes) (content : Store → ℕ → Option Bytes) : Type 0 where
  pub hmac_len : (k m : Bytes) → length (hmac k m) ≡ 32
  pub tinycrypt : (k m : Bytes) → ex.tc_hmac k m ≡ some (hmac k m)
  pub ready : (s : Store) → (t : Store) × (psa.psa_crypto_init s ≡ (some tt, t))
  pub imported_key :
      (k : Bytes) (s : Store)
      → (id : ℕ) × (t : Store) × (psa.psa_import_key hmac_attributes k s ≡ (some id, t))
        × (content t id ≡ some k)
  pub computed :
      (id : ℕ) (k m : Bytes) (s : Store)
      → content s id ≡ some k
      → (t : Store) × (psa.psa_mac_compute id hmac_sha_256 m 32 s ≡ (some (hmac k m), t))
        × (content t id ≡ some k)
  pub destroys_key :
      (id : ℕ) (k : Bytes) (s : Store)
      → content s id ≡ some k
      → (t : Store) × (psa.psa_destroy_key id s ≡ (some tt, t))

-- The bytes of one round are in bounds.
access :
    (out h : Bytes) (out_len j : ℕ)
    → length h ≡ 32
    → length out ≡ j * 32
    → j * 32 < out_len
    → (piece : Bytes) × (read (if ltb out_len ((j + 1) * 32) then out_len % 32 else 32) h
        ≡ ok piece)
      × (store out_len out piece ≡ ok (out ++ piece))
      × ((j + 1) * 32 ≤ out_len → length (out ++ piece) ≡ (j + 1) * 32)
unfolding read store
access out h out_len j lh lo more = elim (Bool-cases (ltb out_len ((j + 1) * 32))) [
  | inl last ↦
      let below = ltb→lt out_len ((j + 1) * 32) last in
      let size = length-take_le (out_len % 32) h (omega arith) in
      let both = length-append out (take (out_len % 32) h) in
      (
        take (out_len % 32) h,
        rw last (ground arith),
        ground arith,
        λ all. omega (arith, all, below),
      )
  | inr whole ↦
      let above = ltb→le out_len ((j + 1) * 32) whole in
      let both = length-append out h in
      (
        h,
        rw whole (ground (arith, take_all 32 h)),
        ground arith,
        λ all. omega (arith, both, lo, lh),
      )
]

-- One round of each loop that succeeds.
psa_round :
    {Store Mpi : Type 0} (psa : Psa Store Mpi) (left i id offset out_len : ℕ)
    (info tmp out input h piece : Bytes) (s s' : Store)
    → u8 i ≡ i
    → drop offset (tmp ++ (info ++ i ∷ [])) ≡ input
    → psa.psa_mac_compute id hmac_sha_256 input 32 s ≡ (some h, s')
    → h ++ drop (length h) tmp ≡ h
    → read (if ltb out_len (i * 32) then out_len % 32 else 32) h ≡ ok piece
    → store out_len out piece ≡ ok (out ++ piece)
    → psa_rounds psa (suc left) i id offset info out_len tmp out s
      ≡ psa_rounds psa left (i + 1) id 0 info out_len h (out ++ piece) s'
unfolding psa_rounds try_expect_psa
psa_round psa left i id offset out_len info tmp out input h piece s s' byte d e whole r w =
    rw (byte, d, e, whole, r, w) refl

expand_round :
    (ex : External) (fuel n i out_len : ℕ) (prk info t out h piece : Bytes)
    → leb i n ≡ true
    → (i == 0) ≡ false
    → u8 (i + 1) ≡ i + 1
    → ex.tc_hmac prk ((if ltb 1 i then t else []) ++ (info ++ i ∷ [])) ≡ some h
    → read (if ltb out_len (i * 32) then out_len % 32 else 32) h ≡ ok piece
    → store out_len out piece ≡ ok (out ++ piece)
    → expand_loop ex (suc fuel) n i prk (of_bytes info) out_len t out
      ≡ expand_loop ex fuel n (i + 1) prk (of_bytes info) out_len h (out ++ piece)
unfolding expand_loop
expand_round ex fuel n i out_len prk info t out h piece within started byte e r w =
    rw (within, read_whole info, e, r, w, started, byte) refl

module _ {Store Mpi : Type 0} (ex : External) (psa : Psa Store Mpi) (hmac : Bytes → Bytes → Bytes)
    (content : Store → ℕ → Option Bytes) (same : SameHmac ex psa hmac content) where
  -- The loops after `j` rounds of `n`, where `tmp` and `t` are what was computed last.
  rounds_agree :
      (left j n fuel id offset : ℕ) (info : Bytes) (out_len : ℕ) (prk tmp t out : Bytes) (s : Store)
      → content s id ≡ some prk
      → n ≡ j + left
      → n < 255
      → left < fuel
      → length tmp ≡ 32
      → ((rest : Bytes) → drop offset (tmp ++ rest) ≡ (if ltb 1 (j + 1) then t else []) ++ rest)
      → (0 < left → length out ≡ j * 32)
      → n * 32 < out_len + 32
      → (xs : Bytes) × (u : Store) × (psa_rounds psa left (j + 1) id offset info out_len tmp out s
          ≡ (ok xs, u))
        × (content u id ≡ some prk)
        × (expand_loop ex fuel n (j + 1) prk (of_bytes info) out_len t out ≡ ok xs)
  unfolding psa_rounds expand_loop
  rounds_agree left j n zero id offset info out_len prk tmp t out s c e lt f lt_ d lo more =
      absurd (omega arith)
  rounds_agree zero j n (suc fuel) id offset info out_len prk tmp t out s c e lt f lt_ d lo more =
      let over : leb (j + 1) n ≡ false = ground arith in (out, s, refl, c, rw over refl)
  rounds_agree (suc left) j n (suc fuel) id offset info out_len prk tmp t out s c e lt f lt_ d lo
        more =
      let input = (if ltb 1 (j + 1) then t else []) ++ (info ++ (j + 1) ∷ []) in
      let h = hmac prk input in
      let lh = same.hmac_len prk input in
      let (s', computed, c') = same.computed id prk input s c in
      let (piece, read_piece, stored, lo') =
        access out h out_len j lh (lo (omega arith)) (omega arith) in
      let byte : u8 (j + 1) ≡ j + 1 = ground arith in
      let next : u8 (j + 1 + 1) ≡ j + 1 + 1 = ground arith in
      let whole : h ++ drop (length h) tmp ≡ h =
        ap (λ x. h ++ x) (drop_all (length h) tmp (omega arith)) ∙ append-nil h in
      let again : ltb 1 (j + 1 + 1) ≡ true = lt→ltb 1 (j + 1 + 1) (omega arith) in
      let within : leb (j + 1) n ≡ true = ground arith in
      let started : (j + 1 == 0) ≡ false = ground arith in
      let (xs, u, rounds, c'', loop) =
        rounds_agree left (j + 1) n fuel id 0 info out_len prk h h (out ++ piece) s' c'
          (omega arith) lt (omega arith) lh (λ rest. rw again refl)
          (λ pos. lo' (omega (arith, pos))) more in
      (
        xs,
        u,
        psa_round psa left (j + 1) id offset out_len info tmp out input h piece s s' byte
              (d (info ++ (j + 1) ∷ [])) computed whole read_piece stored
            ∙ rounds,
        c'',
        expand_round ex fuel n (j + 1) out_len prk info t out h piece within started next
              (same.tinycrypt prk input) read_piece stored
            ∙ loop,
      )

  expand_calls :
      (prk info out : Bytes) (out_len id : ℕ) (s t u v w : Store)
      → ltb 255 (u32 (out_len + 31) / 32) ≡ false
      → ltb 1200 (u32 (32 + length info + 1)) ≡ false
      → psa.psa_crypto_init s ≡ (some tt, t)
      → psa.psa_import_key hmac_attributes prk t ≡ (some id, u)
      → psa_rounds psa (u32 (out_len + 31) / 32) 1 id 32 info out_len (replicate 32 0) [] u
        ≡ (ok out, v)
      → psa.psa_destroy_key id v ≡ (some tt, w)
      → hkdf_expand_psa psa sha_256 prk info out_len s ≡ (ok out, w)
  unfolding hkdf_expand_psa try_expect_psa destroy
  expand_calls prk info out out_len id s t u v w few fits init import rounds gone =
      rw (few, init, import, fits, rounds, gone) refl

  -- For at most 254 blocks and an info that fits its buffer hkdf_expand returns, in the build for
  -- Mbed TLS and in that for TinyCrypt, and the same bytes, where the calls of both libraries
  -- succeed and compute one HMAC of 32 bytes.
  pub hkdf_expand_psa-hkdf_expand :
      (prk info : Bytes) (out_len : ℕ) (s : Store)
      → out_len ≤ 8128
      → length info ≤ 1167
      → (out : Bytes) × (t : Store) × (hkdf_expand_psa psa sha_256 prk info out_len s ≡ (ok out, t))
        × (hkdf_expand ex prk (of_bytes info) out_len ≡ ok out)
  unfolding hkdf_expand
  hkdf_expand_psa-hkdf_expand prk info out_len s short fits =
      let n = u32 (out_len + 31) / 32 in
      let (t, init) = same.ready s in
      let (id, u, import, c) = same.imported_key prk t in
      let (out, v, rounds, c', loop) =
        rounds_agree n 0 n 257 id 32 info out_len prk (replicate 32 0) (replicate 32 0) [] u c
          (omega arith) (omega arith) (omega arith) refl (λ rest. refl) (λ pos. refl)
          (omega arith) in
      let (w, gone) = same.destroys_key id prk v c' in
      let few : ltb 255 n ≡ false = le→ltb 255 n (omega arith) in
      let room : ltb 1200 (u32 (32 + length info + 1)) ≡ false = le→ltb 1200 _ (omega arith) in
      (
        out,
        w,
        expand_calls prk info out out_len id s t u v w few room init import rounds gone,
        rw few loop,
      )
