-- ===== src/Context/NonceLaws.antt =====
-- The nonce as a function of the identifier and the PIV: when two nonces are the same.
use zephyr_uoscore_uedhoc.Prelude.{
  ℕ, All, [], arith, bit_xor, length, refl, suc, zero, ◌<◌, ◌∷◌, ◌≡◌, ◌≤◌, bit_xor_cancel, leb,
  length-append, length-replicate, replicate, true, u8, ◌++◌, ◌-◌,
}
use zephyr_uoscore_uedhoc.Context.Nonce.{xor_bytes, create_nonce, left_pad}
use zephyr_uoscore_uedhoc.Memory.{Bytes, ok, ByteArray, ◌>>=◌}
use zephyr_uoscore_uedhoc.Memory.Laws.{read_prefix}

abbrev pub AreBytes : Bytes → Type 0
AreBytes bs = All (λ b. b < 256) bs

pub xor_bytes_total :
    (n : ℕ) (xs ys : Bytes)
    → n ≤ length xs
    → n ≤ length ys
    → (zs : Bytes) × (xor_bytes n xs ys ≡ ok zs) × (length zs ≡ length xs)
unfolding xor_bytes
xor_bytes_total zero xs ys h k = (xs, refl, refl)
xor_bytes_total (suc n) [] ys h k = absurd (omega arith)
xor_bytes_total (suc n) (x ∷ xs) [] h k = absurd (omega arith)
xor_bytes_total (suc n) (x ∷ xs) (y ∷ ys) h k =
    let (zs, e, l) = xor_bytes_total n xs ys (omega arith) (omega arith) in
    (bit_xor x y ∷ zs, rw e, omega arith)

pub xor_bytes_cancel :
    (n : ℕ) (xs xs' ys : Bytes)
    → AreBytes xs
    → AreBytes xs'
    → AreBytes ys
    → n ≤ length xs
    → n ≤ length xs'
    → n ≤ length ys
    → xor_bytes n xs ys ≡ xor_bytes n xs' ys
    → xs ≡ xs'
unfolding xor_bytes
xor_bytes_cancel zero xs xs' ys h h' k l l' m e = cc
xor_bytes_cancel (suc n) [] xs' ys h h' k l l' m e = absurd (omega arith)
xor_bytes_cancel (suc n) (x ∷ xs) [] ys h h' k l l' m e = absurd (omega arith)
xor_bytes_cancel (suc n) (x ∷ xs) (x' ∷ xs') [] h h' k l l' m e = absurd (omega arith)
xor_bytes_cancel (suc n) (x ∷ xs) (x' ∷ xs') (y ∷ ys) h h' k l l' m e =
    let (zs, a, _) = xor_bytes_total n xs ys (omega arith) (omega arith) in
    let (zs', a', _) = xor_bytes_total n xs' ys (omega arith) (omega arith) in
    let heads : bit_xor x y ≡ bit_xor x' y = ground arith in
    let tails : xor_bytes n xs ys ≡ xor_bytes n xs' ys = ground arith in
    let head : x ≡ x' = bit_xor_cancel x x' y h.0 h'.0 k.0 heads in
    let tail : xs ≡ xs' =
      xor_bytes_cancel n xs xs' ys h.1 h'.1 k.1 (omega arith) (omega arith) (omega arith) tails in
    cc

pub append_split : (a b c d : Bytes) → length a ≡ length b → a ++ c ≡ b ++ d → (a ≡ b) × (c ≡ d)
append_split [] [] c d l e = (refl, e)
append_split [] (y ∷ b) c d l e = absurd (omega arith)
append_split (x ∷ a) [] c d l e = absurd (omega arith)
append_split (x ∷ a) (y ∷ b) c d l e =
    let heads : x ≡ y = cc in
    let tails : a ++ c ≡ b ++ d = cc in
    let (p, q) = append_split a b c d (omega arith) tails in (cc, q)

-- An array whose content is `bs`, with any bytes of its buffer behind.
abbrev pub held : Bytes → Bytes → ByteArray
held bs rest = record { len = length bs; ptr = bs ++ rest }

abbrev pub padded : ℕ → Bytes → Bytes
padded size bs = replicate (size - length bs) 0 ++ bs

pub left_pad-padded :
    (size : ℕ) (bs rest : Bytes)
    → length bs ≤ size
    → left_pad size (held bs rest) ≡ ok (padded size bs)
unfolding left_pad
left_pad-padded size bs rest h =
    let fits : leb (length bs) size ≡ true = ground arith in rw (read_prefix bs rest, fits)

pub length-padded : (size : ℕ) (bs : Bytes) → length bs ≤ size → length (padded size bs) ≡ size
length-padded size bs h = omega (
  arith,
  length-append (replicate (size - length bs) 0) bs,
  length-replicate {0} (size - length bs) zero,
)

-- The nonce before it is joined with the common IV.
abbrev pub nonce_plain : Bytes → Bytes → Bytes
nonce_plain id piv = u8 (length id) ∷ (padded 7 id ++ padded 5 piv)

pub create_nonce-plain :
    (id piv r r' : Bytes) (iv nonce : ByteArray)
    → length id ≤ 7
    → length piv ≤ 5
    → create_nonce (held id r) (held piv r') iv nonce ≡ (
        xor_bytes iv.len (nonce_plain id piv) iv.ptr >>= λ ptr.
        ok (record { len = nonce.len; ptr = ptr }))
unfolding create_nonce
create_nonce-plain id piv r r' iv nonce h k =
    rw (left_pad-padded 5 piv r' k, left_pad-padded 7 id r h)
