-- ===== src/Memory/Laws.antt =====
-- What the buffer operations of Memory do on well-formed arguments.
use zephyr_uoscore_uedhoc.Prelude.{
  ℕ, ◌+◌, ◌≤◌, ◌<◌, ◌≡◌, ◌↔◌, refl, ap, true, ◌++◌, [], ◌∷◌, arith, length, drop, take-append,
  take_all, length-append, drop-append, take, length-take_le,
}
use zephyr_uoscore_uedhoc.Memory.{
  Bytes, ok, err, buffer_to_small, of_bytes, read, memcpy_s, store, append_s, array_equals_from,
  array_equals, Result, fault, ◌>>=◌, copy_s, check_buffer_size,
}

pub read_prefix : (xs ys : Bytes) → read (length xs) (xs ++ ys) ≡ ok xs
unfolding read
read_prefix xs ys = ground (arith, take-append xs ys, length-append xs ys)

pub read_all : (n : ℕ) (xs : Bytes) → n ≡ length xs → read n xs ≡ ok xs
unfolding read
read_all n xs h = ground (arith, take_all n xs)

pub store_fits :
    (cap : ℕ) (out bytes : Bytes)
    → length out + length bytes ≤ cap
    → store cap out bytes ≡ ok (out ++ bytes)
unfolding store
store_fits cap out bytes h = ground arith

-- A copy of a whole prefix that fits.
pub append_s_fits :
    (cap : ℕ) (out : Bytes) (dest_len : ℕ) (bytes rest : Bytes)
    → length bytes ≤ dest_len
    → length out + length bytes ≤ cap
    → append_s cap out dest_len (bytes ++ rest) (length bytes) ≡ ok (out ++ bytes)
unfolding append_s
append_s_fits cap out dest_len bytes rest h k =
    ground (arith, take-append bytes rest, length-append bytes rest)

pub append_s_small :
    (cap : ℕ) (out : Bytes) (dest_len : ℕ) (source : Bytes) (n : ℕ)
    → dest_len < n
    → append_s cap out dest_len source n ≡ err buffer_to_small
unfolding append_s
append_s_small cap out dest_len source n h = ground arith

pub memcpy_s_fits :
    (dest : Bytes) (dest_len : ℕ) (bytes rest : Bytes)
    → length bytes ≤ dest_len
    → memcpy_s dest dest_len (bytes ++ rest) (length bytes) ≡ ok (bytes ++ drop (length bytes) dest)
unfolding memcpy_s
memcpy_s_fits dest dest_len bytes rest h =
    ground (arith, take-append bytes rest, length-append bytes rest)

array_equals_from_lem :
    (n : ℕ) (xs ys : Bytes)
    → n ≡ length xs
    → n ≡ length ys
    → (array_equals_from n xs ys ≡ ok true) ↔ (xs ≡ ys)
unfolding array_equals_from
array_equals_from_lem n [] [] h k = ground arith
array_equals_from_lem n [] (y ∷ ys) h k = absurd (omega arith)
array_equals_from_lem n (x ∷ xs) [] h k = absurd (omega arith)
array_equals_from_lem n (x ∷ xs) (y ∷ ys) h k =
    ground (arith, array_equals_from_lem (length xs) xs ys refl)

length_cong : {xs ys : Bytes} → xs ≡ ys → length xs ≡ length ys
length_cong e = ap length e

-- On whole arrays the comparison decides equality of the contents.
pub array_equals_iff :
    (xs ys : Bytes) → (array_equals (of_bytes xs) (of_bytes ys) ≡ ok true) ↔ (xs ≡ ys)
unfolding array_equals
array_equals_iff xs ys =
    ground (arith, array_equals_from_lem (length xs) xs ys refl, λ (e : xs ≡ ys). length_cong e)

-- A copy of a whole buffer that fits.
pub append_s_whole :
    (size : ℕ) (out : Bytes) (dest_len : ℕ) (bytes : Bytes) (n : ℕ)
    → n ≡ length bytes
    → n ≤ dest_len
    → length out + n ≤ size
    → append_s size out dest_len bytes n ≡ ok (out ++ bytes)
unfolding append_s
append_s_whole size out dest_len bytes n e h k = ground (arith, take_all n bytes)

pub drop_prefix : (n : ℕ) (xs ys : Bytes) → n ≡ length xs → drop n (xs ++ ys) ≡ ys
drop_prefix n xs ys e = rw e (drop-append xs ys)

pub take_prefix : (n : ℕ) (xs ys : Bytes) → n ≡ length xs → take n (xs ++ ys) ≡ xs
take_prefix n xs ys e = rw e (take-append xs ys)

pub nil_of_length : (xs : Bytes) → length xs ≡ 0 → xs ≡ []
nil_of_length [] e = refl
nil_of_length (x ∷ xs) e = absurd (omega arith)

-- A chain that returns a value has one in its first step, from which the rest returns it.
pub bind_ok {ℓ ℓ'} :
    {A : Type ℓ} {B : Type ℓ'} (r : Result A) (next : A → Result B) (b : B)
    → (r >>= next) ≡ ok b
    → (a : A) × (r ≡ ok a) × (next a ≡ ok b)
bind_ok (ok a) next b e = (a, refl, e)
bind_ok (err code) next b e = ground arith
bind_ok fault next b e = ground arith

pub read_ok : (n : ℕ) (p b : Bytes) → read n p ≡ ok b → (n ≤ length p) × (take n p ≡ b)
unfolding read
read_ok n p b e = ground arith

pub ok_inj {ℓ} : {A : Type ℓ} {a b : A} → ok a ≡ ok b → a ≡ b
ok_inj e = ground arith

pub copy_s_ok : (n : ℕ) (p : Bytes) (k : ℕ) (b : Bytes) → copy_s n p k ≡ ok b → take k p ≡ b
unfolding copy_s
copy_s_ok n p k b e = ground (arith, read_ok k p b)

pub store_ok :
    (cap : ℕ) (out bytes b : Bytes)
    → store cap out bytes ≡ ok b
    → (length out + length bytes ≤ cap) × (out ++ bytes ≡ b)
unfolding store
store_ok cap out bytes b e = ground arith

pub check_ok :
    (is_size required : ℕ) (u : Unit {0})
    → check_buffer_size is_size required ≡ ok u
    → required ≤ is_size
unfolding check_buffer_size
check_ok is_size required u e = ground arith

pub check_fits :
    (is_size required : ℕ) → required ≤ is_size → check_buffer_size is_size required ≡ ok tt
unfolding check_buffer_size
check_fits is_size required h = ground arith

-- A read within a buffer.
pub read_some :
    (n : ℕ) (p : Bytes) → n ≤ length p → (b : Bytes) × (read n p ≡ ok b) × (length b ≡ n)
unfolding read
read_some n p h = (take n p, ground arith, length-take_le n p h)
