-- ===== src/Unprotect/Reorder.antt =====
-- `options_from_oscore_reorder` of src/oscore/oscore2coap.c. It is called for packets with an
-- OSCORE option.
use zephyr_uoscore_uedhoc.Prelude.{
  ℕ, List, [], if◌then◌else◌, length, ltb, replicate, sub16, sub8, suc, take, u16, u8, zero, ◌++◌,
  ◌+◌, ◌==◌, ◌∷◌,
}
use zephyr_uoscore_uedhoc.Memory.{Result, check_buffer_size, fault, ok, ◌>>=◌, ◌>>◌}
use zephyr_uoscore_uedhoc.Options.{coap_option_oscore}
use zephyr_uoscore_uedhoc.Coap.{CoapOption, max_option_count}

-- The numbers of all options but the OSCORE option.
unfoldable pub option_numbers : List CoapOption → List ℕ
option_numbers [] = []
option_numbers (o ∷ os) =
    if o.option_number == coap_option_oscore
    then option_numbers os
    else o.option_number ∷ option_numbers os

unfoldable pub all_numbers : List CoapOption → List ℕ
all_numbers [] = []
all_numbers (o ∷ os) = o.option_number ∷ all_numbers os

-- The inner loop for one index: its element afterwards, and the elements behind it.
unfoldable pub exchange : ℕ → List ℕ → ℕ × List ℕ
exchange x [] = (x, [])
exchange x (y ∷ ys) =
    let (m, r) = exchange (if ltb y x then y else x) ys in (m, (if ltb y x then x else y) ∷ r)

-- The two nested loops over `n` elements.
unfoldable pub sort_numbers : ℕ → List ℕ → List ℕ
unfolding exchange
sort_numbers zero xs = xs
sort_numbers (suc n) [] = []
sort_numbers (suc n) (x ∷ xs) = let (m, r) = exchange x xs in m ∷ sort_numbers n r

-- An option as it is copied behind those of sum `sum`.
abbrev pub copied_after : ℕ → CoapOption → CoapOption
copied_after sum o = record o { delta = sub16 o.option_number sum }

-- The loop over the sorted numbers. `us` and `es` are the options from the two indices on; the
-- elements behind them are not initialised, and a read of one is a fault.
unfoldable pub copy_options :
    List ℕ → List CoapOption → List CoapOption → ℕ → Result (List CoapOption)
copy_options [] us es sum = ok []
copy_options (n ∷ ns) [] es sum = fault
copy_options (n ∷ ns) (u ∷ us) [] sum =
    let rest = copy_options ns us [] (u16 (sum + sub16 u.option_number sum)) in
    if n == u.option_number then (do os ← rest; ok (copied_after sum u ∷ os)) else fault
copy_options (n ∷ ns) (u ∷ us) (e ∷ es) sum =
    let from_u = copy_options ns us (e ∷ es) (u16 (sum + sub16 u.option_number sum)) in
    let from_e = copy_options ns (u ∷ us) es (u16 (sum + sub16 e.option_number sum)) in
    let skipped = copy_options ns (u ∷ us) (e ∷ es) sum in
    if n == u.option_number
    then (do os ← from_u; ok (copied_after sum u ∷ os))
    else if n == e.option_number
    then (do os ← from_e; ok (copied_after sum e ∷ os))
    else skipped

-- The array of the numbers is cleared before they are stored.
unfoldable pub options_from_oscore_reorder :
    List CoapOption → List CoapOption → Result (List CoapOption)
unfolding option_numbers all_numbers sort_numbers copy_options check_buffer_size
options_from_oscore_reorder us es =
    let count = sub8 (u8 (length us + length es)) 1 in
    let numbers = take count ((option_numbers us ++ all_numbers es) ++ replicate count 0) in
    let merge = (do
      check_buffer_size max_option_count count
      copy_options (sort_numbers count numbers) us es 0) in
    if ltb 0 count then merge else ok []
