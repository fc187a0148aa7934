-- ===== src/Context/NonceReuse.antt =====
-- Which sequence numbers of one sender give the same nonce. The PIV has the lowest byte first,
-- and is padded with zeros in front of it.
use zephyr_uoscore_uedhoc.Prelude.{
  ℕ, All-append, arith, length, length-append, replicate, suc, zero, ◌-◌, ◌≡◌, ◌≤◌, u8, ◌*◌, ◌++◌,
  ◌<◌, ◌^◌, ap, drop, ltb, lt→ltb, sym, true, ◌%◌, ◌/◌, ◌∙◌, ◌≢◌,
}
use zephyr_uoscore_uedhoc.Memory.{ByteArray, Bytes, of_bytes, ok, ◌>>=◌, Result}
use zephyr_uoscore_uedhoc.Context.NonceLaws.{
  AreBytes, held, length-padded, nonce_plain, padded, append_split, create_nonce-plain,
  xor_bytes_cancel, xor_bytes_total,
}
use zephyr_uoscore_uedhoc.Context.Nonce.{create_nonce, xor_bytes}
use zephyr_uoscore_uedhoc.Context.PivLaws.{
  le_value, piv_size, length-little_endian, piv_array, piv_size_bounds,
  sender_seq_num2piv-piv_array,
}
use zephyr_uoscore_uedhoc.Context.Piv.{little_endian, sender_seq_num2piv}

AreBytes-replicate : (n : ℕ) → AreBytes (replicate n 0)
AreBytes-replicate zero = tt
AreBytes-replicate (suc n) = (omega arith, AreBytes-replicate n)

AreBytes-padded : (size : ℕ) (bs : Bytes) → AreBytes bs → AreBytes (padded size bs)
AreBytes-padded size bs h =
    All-append _ (replicate (size - length bs) 0) bs (AreBytes-replicate _) h

AreBytes-nonce_plain : (id piv : Bytes) → AreBytes id → AreBytes piv → AreBytes (nonce_plain id piv)
AreBytes-nonce_plain id piv h k = (
  omega arith,
  All-append _ (padded 7 id) (padded 5 piv) (AreBytes-padded 7 id h) (AreBytes-padded 5 piv k),
)

length-nonce_plain :
    (id piv : Bytes) → length id ≤ 7 → length piv ≤ 5 → length (nonce_plain id piv) ≡ 13
length-nonce_plain id piv h k =
    omega (
      arith,
      length-append (padded 7 id) (padded 5 piv),
      length-padded 7 id h,
      length-padded 5 piv k,
    )

-- Identifier and PIV of a nonce.
pub record IsInput (id piv : Bytes) : Type 0 where
  pub id_le : length id ≤ 7
  pub piv_le : length piv ≤ 5
  pub id_bytes : AreBytes id
  pub piv_bytes : AreBytes piv

padded_cancel :
    (size : ℕ) (bs bs' : Bytes)
    → length bs ≡ length bs'
    → padded size bs ≡ padded size bs'
    → bs ≡ bs'
padded_cancel size bs bs' l e =
    (append_split (replicate (size - length bs) 0) (replicate (size - length bs') 0) bs bs' (rw l)
      e).1

plain_cancel :
    (id id' piv piv' : Bytes)
    → IsInput id piv
    → IsInput id' piv'
    → nonce_plain id piv ≡ nonce_plain id' piv'
    → (id ≡ id') × (padded 5 piv ≡ padded 5 piv')
plain_cancel id id' piv piv' h h' e =
    let heads : u8 (length id) ≡ u8 (length id') = cc in
    let tails : padded 7 id ++ padded 5 piv ≡ padded 7 id' ++ padded 5 piv' = cc in
    let a : length id ≤ 7 = h.id_le in
    let a' : length id' ≤ 7 = h'.id_le in
    let (ids, pivs) =
      append_split (padded 7 id) (padded 7 id') (padded 5 piv) (padded 5 piv')
        (omega (arith, length-padded 7 id a, length-padded 7 id' a')) tails in
    (padded_cancel 7 id id' (omega arith) ids, pivs)

-- The nonce of computed bytes.
abbrev as_nonce : ByteArray → Bytes → Result ByteArray
as_nonce nonce ptr = ok (record { len = nonce.len; ptr = ptr })

nonce_cancel :
    (xs xs' : Bytes) (iv nonce : ByteArray)
    → AreBytes xs
    → AreBytes xs'
    → AreBytes iv.ptr
    → iv.len ≤ length xs
    → iv.len ≤ length xs'
    → iv.len ≤ length iv.ptr
    → (xor_bytes iv.len xs iv.ptr >>= as_nonce nonce)
      ≡ (xor_bytes iv.len xs' iv.ptr >>= as_nonce nonce)
    → xs ≡ xs'
nonce_cancel xs xs' iv nonce h h' k l l' m e =
    let (zs, a, _) = xor_bytes_total iv.len xs iv.ptr l m in
    let (zs', a', _) = xor_bytes_total iv.len xs' iv.ptr l' m in
    let e' = rw (a, a') at e in
    let same : xor_bytes iv.len xs iv.ptr ≡ xor_bytes iv.len xs' iv.ptr = cc in
    xor_bytes_cancel iv.len xs xs' iv.ptr h h' k l l' m same

-- Equal nonces under one common IV of 13 bytes have the same identifier and the same padded PIV,
-- for identifiers of at most 7 and PIVs of at most 5 bytes.
pub create_nonce_cancel :
    (id id' piv piv' r r' s s' iv : Bytes) (nonce : ByteArray)
    → IsInput id piv
    → IsInput id' piv'
    → length iv ≡ 13
    → AreBytes iv
    → create_nonce (held id r) (held piv s) (of_bytes iv) nonce
      ≡ create_nonce (held id' r') (held piv' s') (of_bytes iv) nonce
    → (id ≡ id') × (padded 5 piv ≡ padded 5 piv')
create_nonce_cancel id id' piv piv' r r' s s' iv nonce h h' l k e =
    let size = length-nonce_plain id piv h.id_le h.piv_le in
    let size' = length-nonce_plain id' piv' h'.id_le h'.piv_le in
    let e' =
      rw
        (
          create_nonce-plain id piv r s (of_bytes iv) nonce h.id_le h.piv_le,
          create_nonce-plain id' piv' r' s' (of_bytes iv) nonce h'.id_le h'.piv_le,
        )
        at e in
    plain_cancel id id' piv piv' h h' (
      nonce_cancel (nonce_plain id piv) (nonce_plain id' piv') (of_bytes iv) nonce
        (AreBytes-nonce_plain id piv h.id_bytes h.piv_bytes)
        (AreBytes-nonce_plain id' piv' h'.id_bytes h'.piv_bytes) k (omega arith) (omega arith)
        (omega arith) e')

-- The bytes of a sequence number's PIV.
abbrev piv_bytes_of : ℕ → Bytes
piv_bytes_of ssn = little_endian (piv_size ssn) ssn

padded_shift :
    (ssn : ℕ)
    → 0 < ssn
    → 256 * ssn < 2 ^ 40
    → padded 5 (piv_bytes_of (256 * ssn)) ≡ padded 5 (piv_bytes_of ssn)
unfolding little_endian
padded_shift ssn h k = ground arith

le_value-padded :
    (ssn : ℕ)
    → ssn < 2 ^ 40
    → le_value (padded 5 (piv_bytes_of ssn)) ≡ 256 ^ (5 - piv_size ssn) * ssn
unfolding little_endian
le_value-padded ssn h = ground arith

length-piv_bytes_of : (ssn : ℕ) → length (piv_bytes_of ssn) ≤ 5
length-piv_bytes_of ssn =
    omega (arith, length-little_endian (piv_size ssn) ssn, piv_size_bounds ssn)

AreBytes-little_endian : (n x : ℕ) → AreBytes (little_endian n x)
unfolding little_endian
AreBytes-little_endian zero x = tt
AreBytes-little_endian (suc n) x = (omega arith, AreBytes-little_endian n (x / 256))

-- The nonce of a sequence number.
abbrev pub nonce_of : ℕ → ByteArray → ByteArray → ByteArray → ByteArray → Result ByteArray
nonce_of ssn old id iv nonce = do piv ← sender_seq_num2piv ssn old; create_nonce id piv iv nonce

piv_array-held :
    (ssn : ℕ) (old : Bytes) → piv_array ssn old ≡ held (piv_bytes_of ssn) (drop (piv_size ssn) old)
piv_array-held ssn old = rw (length-little_endian (piv_size ssn) ssn)

nonce_of-plain :
    (ssn : ℕ) (id r : Bytes) (old iv nonce : ByteArray)
    → ssn < 2 ^ 40
    → length id ≤ 7
    → nonce_of ssn old (held id r) iv nonce
      ≡ (xor_bytes iv.len (nonce_plain id (piv_bytes_of ssn)) iv.ptr >>= as_nonce nonce)
nonce_of-plain ssn id r old iv nonce h k =
    let below : ltb ssn (2 ^ 40) ≡ true = lt→ltb ssn (2 ^ 40) h in
    let piv = sender_seq_num2piv-piv_array ssn old (omega arith) in
    rw (
      rw below at piv,
      piv_array-held ssn old.ptr,
      create_nonce-plain id (piv_bytes_of ssn) r (drop (piv_size ssn) old.ptr) iv nonce k
          (length-piv_bytes_of ssn),
    )

-- A sequence number and its 256-fold, below 2^40, have the same nonce, whatever identifier and
-- common IV: the zero byte that the larger number begins with is the padding of the smaller.
pub nonce_of-shift :
    (ssn : ℕ) (id r : Bytes) (old iv nonce : ByteArray)
    → 0 < ssn
    → 256 * ssn < 2 ^ 40
    → length id ≤ 7
    → nonce_of (256 * ssn) old (held id r) iv nonce ≡ nonce_of ssn old (held id r) iv nonce
nonce_of-shift ssn id r old iv nonce pos h k = rw (
  nonce_of-plain (256 * ssn) id r old iv nonce h k,
  nonce_of-plain ssn id r old iv nonce (omega arith) k,
  padded_shift ssn pos h,
)

padded_odd :
    (a b : ℕ)
    → a < 2 ^ 40
    → b < 2 ^ 40
    → a % 256 ≢ 0
    → b % 256 ≢ 0
    → padded 5 (piv_bytes_of a) ≡ padded 5 (piv_bytes_of b)
    → a ≡ b
padded_odd a b h k x y e =
    let values : 256 ^ (5 - piv_size a) * a ≡ 256 ^ (5 - piv_size b) * b =
      sym (le_value-padded a h) ∙ ap le_value e ∙ le_value-padded b k in
    ground arith

-- Two sequence numbers below 2^40 that are no multiples of 256 have different nonces unless
-- they are the same number, and the identifiers are then the same too.
pub nonce_of_cancel :
    (a b : ℕ) (id id' r r' iv : Bytes) (old old' nonce : ByteArray)
    → a < 2 ^ 40
    → b < 2 ^ 40
    → a % 256 ≢ 0
    → b % 256 ≢ 0
    → (length id ≤ 7) × AreBytes id
    → (length id' ≤ 7) × AreBytes id'
    → (length iv ≡ 13) × AreBytes iv
    → nonce_of a old (held id r) (of_bytes iv) nonce
      ≡ nonce_of b old' (held id' r') (of_bytes iv) nonce
    → (a ≡ b) × (id ≡ id')
nonce_of_cancel a b id id' r r' iv old old' nonce h k x y (l, i) (l', i') (m, j) e =
    let e' =
      rw
        (
          nonce_of-plain a id r old (of_bytes iv) nonce h l,
          nonce_of-plain b id' r' old' (of_bytes iv) nonce k l',
        )
        at e in
    let size = length-nonce_plain id (piv_bytes_of a) l (length-piv_bytes_of a) in
    let size' = length-nonce_plain id' (piv_bytes_of b) l' (length-piv_bytes_of b) in
    let bytes = AreBytes-little_endian (piv_size a) a in
    let bytes' = AreBytes-little_endian (piv_size b) b in
    let plain =
      nonce_cancel (nonce_plain id (piv_bytes_of a)) (nonce_plain id' (piv_bytes_of b))
        (of_bytes iv) nonce (AreBytes-nonce_plain id (piv_bytes_of a) i bytes)
        (AreBytes-nonce_plain id' (piv_bytes_of b) i' bytes') j (omega arith) (omega arith)
        (omega arith) e' in
    let (ids, pivs) =
      plain_cancel id id' (piv_bytes_of a) (piv_bytes_of b)
        (record { id_le = l; piv_le = length-piv_bytes_of a; id_bytes = i; piv_bytes = bytes })
        (record { id_le = l'; piv_le = length-piv_bytes_of b; id_bytes = i'; piv_bytes = bytes' })
        plain in
    (padded_odd a b h k x y pivs, ids)
