-- ===== src/Unprotect/Sorting.antt =====
-- The nested loops of `options_from_oscore_reorder` (src/oscore/oscore2coap.c) over the option
-- numbers.
use zephyr_uoscore_uedhoc.Prelude.{
  All, List, [], if◌then◌else◌, length, refl, ℕ, ◌+◌, ◌==◌, ◌∷◌, ◌≡◌, ◌≤◌, Bool-cases, arith, inl,
  inr, ltb, suc, zero,
}
use zephyr_uoscore_uedhoc.Unprotect.Reorder.{exchange, sort_numbers}

-- Increasing.
abbrev pub IsIncreasing : List ℕ → Type 0
IsIncreasing [] = Unit
IsIncreasing (x ∷ xs) = All (λ y. x ≤ y) xs × IsIncreasing xs

-- How often a number occurs.
abbrev pub count_of : ℕ → List ℕ → ℕ
count_of n [] = 0
count_of n (x ∷ xs) = (if n == x then 1 else 0) + count_of n xs

exchange_le : (x : ℕ) (xs : List ℕ) → (exchange x xs).0 ≤ x
unfolding exchange
exchange_le x [] = omega arith
exchange_le x (y ∷ ys) = ground (arith, exchange_le x ys, exchange_le y ys)

exchange-least :
    (m x : ℕ) (xs : List ℕ) → (exchange x xs).0 ≡ m → All (λ y. m ≤ y) (exchange x xs).1
unfolding exchange
exchange-least m x [] e = tt
exchange-least m x (y ∷ ys) e = elim (Bool-cases (ltb y x)) [
  | inl less ↦
      let e' : (exchange y ys).0 ≡ m = ground arith in
      rw less (ground (arith, exchange_le y ys), exchange-least m y ys e')
  | inr more ↦
      let e' : (exchange x ys).0 ≡ m = ground arith in
      rw more (ground (arith, exchange_le x ys), exchange-least m x ys e')
]

exchange-count_of :
    (x n : ℕ) (xs : List ℕ)
    → count_of n ((exchange x xs).0 ∷ (exchange x xs).1) ≡ count_of n (x ∷ xs)
unfolding exchange
exchange-count_of x n [] = refl
exchange-count_of x n (y ∷ ys) = ground (arith, exchange-count_of x n ys, exchange-count_of y n ys)

exchange-All :
    (P : ℕ → Type 0) (x : ℕ) (xs : List ℕ)
    → P x
    → All P xs
    → P (exchange x xs).0 × All P (exchange x xs).1
unfolding exchange
exchange-All P x [] p h = (p, tt)
exchange-All P x (y ∷ ys) p h = elim (Bool-cases (ltb y x)) [
  | inl lt ↦ let (a, b) = exchange-All P y ys h.0 h.1 in rw lt (a, (p, b))
  | inr ge ↦ let (a, b) = exchange-All P x ys p h.1 in rw ge (a, (h.0, b))
]

length-exchange : (x : ℕ) (xs : List ℕ) → length (exchange x xs).1 ≡ length xs
unfolding exchange
length-exchange x [] = refl
length-exchange x (y ∷ ys) = ground (arith, length-exchange x ys, length-exchange y ys)

sort_numbers-All : (P : ℕ → Type 0) (n : ℕ) (xs : List ℕ) → All P xs → All P (sort_numbers n xs)
unfolding sort_numbers
sort_numbers-All P zero xs h = h
sort_numbers-All P (suc n) [] h = tt
sort_numbers-All P (suc n) (x ∷ xs) (p, h) =
    let (a, b) = exchange-All P x xs p h in (a, sort_numbers-All P n (exchange x xs).1 b)

-- The two nested loops over as many elements as there are give an increasing list, in which every
-- number occurs as often as before.
pub sort_numbers-IsIncreasing :
    (n : ℕ) (xs : List ℕ)
    → n ≡ length xs
    → IsIncreasing (sort_numbers n xs) × ((k : ℕ) → count_of k (sort_numbers n xs) ≡ count_of k xs)
unfolding sort_numbers
sort_numbers-IsIncreasing zero [] e = (tt, λ k. refl)
sort_numbers-IsIncreasing zero (x ∷ xs) e = absurd (omega arith)
sort_numbers-IsIncreasing (suc n) [] e = absurd (omega arith)
sort_numbers-IsIncreasing (suc n) (x ∷ xs) e =
    let m = (exchange x xs).0 in
    let behind = (exchange x xs).1 in
    let (sorted, count) =
      sort_numbers-IsIncreasing n behind (omega (arith, length-exchange x xs)) in
    (
      (sort_numbers-All (λ y. m ≤ y) n behind (exchange-least m x xs refl), sorted),
      λ k. omega (arith, count k, exchange-count_of x k xs),
    )
