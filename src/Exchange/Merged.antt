-- ===== src/Exchange/Merged.antt =====
-- The merge of the options (src/oscore/oscore2coap.c) where the OSCORE option is the only outer
-- one.
use zephyr_uoscore_uedhoc.Prelude.{
  ℕ, ◌≡◌, All, List, [], ap, arith, false, length, le→ltb, ltb, refl, sub16, suc, true, u16, zero,
  ◌+◌, ◌==◌, ◌∷◌, ◌≢◌, ◌≤◌, replicate, sub8, sym, take, u8, ◌++◌, ◌∙◌,
}
use zephyr_uoscore_uedhoc.Coap.{CoapOption, max_option_count}
use zephyr_uoscore_uedhoc.Unprotect.Reorder.{
  all_numbers, copy_options, exchange, options_from_oscore_reorder, sort_numbers, option_numbers,
}
use zephyr_uoscore_uedhoc.Options.{coap_option_oscore, is_class_e}
use zephyr_uoscore_uedhoc.Unprotect.Sorting.{IsIncreasing}
use zephyr_uoscore_uedhoc.Memory.{ok, Bytes}
use zephyr_uoscore_uedhoc.Exchange.{Ascending, IsCounted}
use zephyr_uoscore_uedhoc.Memory.Laws.{check_fits, take_prefix}
use zephyr_uoscore_uedhoc.Coap.RoundTrip.{pointing_all}

exchange-least_first : (x : ℕ) (xs : List ℕ) → All (λ y. x ≤ y) xs → exchange x xs ≡ (x, xs)
unfolding exchange
exchange-least_first x [] h = refl
exchange-least_first x (y ∷ ys) (le, h) =
    let stays : ltb y x ≡ false = le→ltb y x le in rw (stays, exchange-least_first x ys h)

-- Numbers that are in order stay as they are.
sort_numbers-id : (n : ℕ) (xs : List ℕ) → IsIncreasing xs → sort_numbers n xs ≡ xs
unfolding sort_numbers
sort_numbers-id zero xs h = refl
sort_numbers-id (suc n) [] h = refl
sort_numbers-id (suc n) (x ∷ xs) (le, h) =
    rw (exchange-least_first x xs le) (rw (sort_numbers-id n xs h))

Ascending-le :
    (os : List CoapOption) (m n : ℕ) → m ≤ n → Ascending n os → All (λ y. m ≤ y) (all_numbers os)
unfolding all_numbers
Ascending-le [] m n le h = tt
Ascending-le (o ∷ os) m n le (e, lt, h) =
    (omega arith, Ascending-le os m o.option_number (omega arith) h)

Ascending-IsIncreasing :
    (os : List CoapOption) (n : ℕ) → Ascending n os → IsIncreasing (all_numbers os)
unfolding all_numbers
Ascending-IsIncreasing [] n h = tt
Ascending-IsIncreasing (o ∷ os) n (e, lt, h) = (
  Ascending-le os o.option_number o.option_number (omega arith) h,
  Ascending-IsIncreasing os o.option_number h,
)

length-all_numbers : (os : List CoapOption) → length (all_numbers os) ≡ length os
unfolding all_numbers
length-all_numbers [] = refl
length-all_numbers (o ∷ os) = ap suc (length-all_numbers os)

-- None of the inner options has the number of the outer one.
copy_options-e :
    (u : CoapOption) (es : List CoapOption) (sum : ℕ)
    → Ascending sum es
    → All (λ e. e.option_number ≢ u.option_number) es
    → copy_options (all_numbers es) (u ∷ []) es sum ≡ ok es
unfolding copy_options all_numbers
copy_options-e u [] sum h ne = refl
copy_options-e u (e ∷ es) sum (n, lt, h) (ne, nes) =
    let not_u : (e.option_number == u.option_number) ≡ false = ground (arith, ne) in
    let is_e : (e.option_number == e.option_number) ≡ true = ground arith in
    let delta : sub16 e.option_number sum ≡ e.delta = omega arith in
    let next : u16 (sum + e.delta) ≡ e.option_number = omega arith in
    rw (not_u, is_e, delta, next, copy_options-e u es e.option_number h nes)

pub options_from_oscore_reorder_lem :
    (u : CoapOption) (es : List CoapOption)
    → u.option_number ≡ coap_option_oscore
    → Ascending 0 es
    → All (λ e. e.option_number ≢ u.option_number) es
    → length es ≤ max_option_count
    → options_from_oscore_reorder (u ∷ []) es ≡ ok es
unfolding options_from_oscore_reorder
options_from_oscore_reorder_lem u [] n h ne le = refl
options_from_oscore_reorder_lem u (e ∷ es) n h ne le =
    let all = e ∷ es in
    let n' = suc (length es) in
    let count : sub8 (u8 (1 + n')) 1 ≡ n' = omega arith in
    let any : ltb 0 n' ≡ true = ground arith in
    let is_oscore : (u.option_number == coap_option_oscore) ≡ true = ground arith in
    let front : take n' ((option_numbers (u ∷ []) ++ all_numbers all) ++ replicate n' 0)
        ≡ all_numbers all =
      rw is_oscore
        (take_prefix n' (all_numbers all) (replicate n' 0) (sym (length-all_numbers all))) in
    rw (count, any, check_fits max_option_count n' le, front)
      (ap (λ ns. copy_options ns (u ∷ []) all 0)
          (sort_numbers-id n' (all_numbers all) (Ascending-IsIncreasing all 0 h))
        ∙ copy_options-e u all 0 h ne)

is_class_e-ne_oscore : (n : ℕ) → is_class_e n ≡ true → n ≢ coap_option_oscore
unfolding is_class_e
is_class_e-ne_oscore n e = ground arith

-- What the merge needs of the inner options, with pointers into the plaintext.
pub Ascending-pointing_all :
    (os : List CoapOption) (n : ℕ) (rest : Bytes)
    → Ascending n os
    → Ascending n (pointing_all os rest)
Ascending-pointing_all [] n rest h = tt
Ascending-pointing_all (o ∷ os) n rest (e, lt, h) =
    (e, lt, Ascending-pointing_all os o.option_number rest h)

pub pointing_all-ne_oscore :
    (os : List CoapOption) (rest : Bytes)
    → All IsCounted os
    → All (λ e. e.option_number ≢ coap_option_oscore) (pointing_all os rest)
pointing_all-ne_oscore [] rest h = tt
pointing_all-ne_oscore (o ∷ os) rest (c, h) =
    (is_class_e-ne_oscore o.option_number c.class_e, pointing_all-ne_oscore os rest h)

pub length-pointing_all :
    (os : List CoapOption) (rest : Bytes) → length (pointing_all os rest) ≡ length os
length-pointing_all [] rest = refl
length-pointing_all (o ∷ os) rest = ap suc (length-pointing_all os rest)
