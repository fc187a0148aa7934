-- ===== src/Protect/Classes.antt =====
-- The split of the options of `e_u_options_extract` (src/oscore/coap2oscore.c) by class.
use zephyr_uoscore_uedhoc.Memory.{Bytes}
use zephyr_uoscore_uedhoc.Prelude.{
  Bool, List, [], false, if◌then◌else◌, refl, sub16, true, u8, ℕ, ◌++◌, ◌+◌, ◌<◌, ◌∷◌, ◌≡◌,
  Bool-cases, append-nil, arith, inl, inr, append_assoc,
}
use zephyr_uoscore_uedhoc.Coap.{CoapOption}
use zephyr_uoscore_uedhoc.Options.{is_class_e}
use zephyr_uoscore_uedhoc.Protect.Extract.{
  Split, extract_option, e_u_options_extract, extract_from, no_options,
}
use zephyr_uoscore_uedhoc.Coap.RoundTrip.{Numbered}

-- The number, the length and the value of an option, which the split keeps.
abbrev pub contents : List CoapOption → List (ℕ × ℕ × Bytes)
contents [] = []
contents (o ∷ os) = (o.option_number, o.len, o.value) ∷ contents os

-- Those of the options of class E, or of the others.
abbrev pub those : Bool → List CoapOption → List (ℕ × ℕ × Bytes)
those true [] = []
those true (o ∷ os) =
    if is_class_e o.option_number
    then (o.option_number, o.len, o.value) ∷ those true os
    else those true os
those false [] = []
those false (o ∷ os) =
    if is_class_e o.option_number
    then those false os
    else (o.option_number, o.len, o.value) ∷ those false os

-- Every number is the sum of the deltas from `number` on, in an uint8_t, and the last is `last`.
abbrev pub NumberedTo : ℕ → List CoapOption → ℕ → Type 0
NumberedTo number [] last = number ≡ last
NumberedTo number (o ∷ os) last =
    (o.option_number ≡ u8 (number + o.delta)) × NumberedTo o.option_number os last

contents-append : (xs ys : List CoapOption) → contents (xs ++ ys) ≡ contents xs ++ contents ys
contents-append [] ys = refl
contents-append (x ∷ xs) ys = rw (contents-append xs ys)

NumberedTo-snoc :
    (xs : List CoapOption) (o : CoapOption) (number last : ℕ)
    → NumberedTo number xs last
    → o.option_number ≡ u8 (last + o.delta)
    → NumberedTo number (xs ++ o ∷ []) o.option_number
NumberedTo-snoc [] o number last h e = (ground arith, refl)
NumberedTo-snoc (x ∷ xs) o number last (f, h) e = (f, NumberedTo-snoc xs o x.option_number last h e)

-- What holds of the split so far.
record IsSplit (s : Split) : Type 0 where
  e_numbers : NumberedTo 0 s.e_options s.e_delta_sum
  u_numbers : NumberedTo 0 s.u_options s.u_delta_sum
  e_lt : s.e_delta_sum < 256
  u_lt : s.u_delta_sum < 256

pub renumbered_sum :
    (number sum : ℕ) → number < 256 → sum < 256 → number ≡ u8 (sum + sub16 number sum)
renumbered_sum number sum h k = omega arith

extract_option-IsSplit : (o : CoapOption) (s : Split) → IsSplit s → IsSplit (extract_option o s)
unfolding extract_option
extract_option-IsSplit o s h =
    let number = u8 (s.temp_option_nr + o.delta) in
    let e = renumbered_sum number s.e_delta_sum (omega arith) h.e_lt in
    let u = renumbered_sum number s.u_delta_sum (omega arith) h.u_lt in
    elim (Bool-cases (is_class_e number)) [
      | inl is_e ↦ rw is_e (record {
        e_numbers = rw (← e) (NumberedTo-snoc s.e_options _ 0 s.e_delta_sum h.e_numbers e);
        u_numbers = h.u_numbers;
        e_lt = omega arith;
        u_lt = h.u_lt;
      })
      | inr is_u ↦ rw is_u (record {
        e_numbers = h.e_numbers;
        u_numbers = rw (← u) (NumberedTo-snoc s.u_options _ 0 s.u_delta_sum h.u_numbers u);
        e_lt = h.e_lt;
        u_lt = omega arith;
      })
    ]

extract_from-IsSplit : (os : List CoapOption) (s : Split) → IsSplit s → IsSplit (extract_from os s)
unfolding extract_from
extract_from-IsSplit [] s h = h
extract_from-IsSplit (o ∷ os) s h =
    extract_from-IsSplit os (extract_option o s) (extract_option-IsSplit o s h)

extract_option_nr :
    (o : CoapOption) (s : Split)
    → (extract_option o s).temp_option_nr ≡ u8 (s.temp_option_nr + o.delta)
unfolding extract_option
extract_option_nr o s = ground arith

-- The contents of an option of one class.
abbrev alone : Bool → CoapOption → List (ℕ × ℕ × Bytes)
alone class o = those class (o ∷ [])

extract_option-contents :
    (o : CoapOption) (s : Split)
    → o.option_number ≡ u8 (s.temp_option_nr + o.delta)
    → (contents (extract_option o s).e_options ≡ contents s.e_options ++ alone true o)
      × (contents (extract_option o s).u_options ≡ contents s.u_options ++ alone false o)
unfolding extract_option
extract_option-contents o s e = elim (Bool-cases (is_class_e o.option_number)) [
  | inl is_e ↦ rw (← e, is_e) (contents-append s.e_options _, rw append-nil)
  | inr is_u ↦ rw (← e, is_u) (rw append-nil, contents-append s.u_options _)
]

those-cons :
    (class : Bool) (o : CoapOption) (os : List CoapOption)
    → those class (o ∷ os) ≡ alone class o ++ those class os
those-cons true o os = ground arith
those-cons false o os = ground arith

extract_from-contents :
    (os : List CoapOption) (s : Split)
    → Numbered s.temp_option_nr os
    → (contents (extract_from os s).e_options ≡ contents s.e_options ++ those true os)
      × (contents (extract_from os s).u_options ≡ contents s.u_options ++ those false os)
unfolding extract_from extract_option
extract_from-contents [] s h = (rw append-nil, rw append-nil)
extract_from-contents (o ∷ os) s (e, h) =
    let next = extract_option o s in
    let (e_here, u_here) = extract_option-contents o s e in
    let h' : Numbered next.temp_option_nr os = rw (extract_option_nr o s, ← e) h in
    let (e_rest, u_rest) = extract_from-contents os next h' in
    (
      rw (e_rest, e_here, those-cons true o os, append_assoc),
      rw (u_rest, u_here, those-cons false o os, append_assoc),
    )

NumberedTo-Numbered :
    (os : List CoapOption) (number last : ℕ) → NumberedTo number os last → Numbered number os
NumberedTo-Numbered [] number last h = tt
NumberedTo-Numbered (o ∷ os) number last (e, h) = (e, NumberedTo-Numbered os o.option_number last h)

no_options-IsSplit : IsSplit no_options
no_options-IsSplit = record {
  e_numbers = refl;
  u_numbers = refl;
  e_lt = omega arith;
  u_lt = omega arith;
}

-- The options of a packet whose numbers are the sums of the deltas are split into those of class
-- E and the others, each in their order and with their lengths and values, and in both lists the numbers are
-- again the sums of the new deltas.
pub e_u_options_extract-contents :
    (os : List CoapOption)
    → Numbered 0 os
    → (contents (e_u_options_extract os).e_options ≡ those true os)
      × (contents (e_u_options_extract os).u_options ≡ those false os)
      × Numbered 0 (e_u_options_extract os).e_options
      × Numbered 0 (e_u_options_extract os).u_options
unfolding e_u_options_extract
e_u_options_extract-contents os h =
    let (es, us) = extract_from-contents os no_options h in
    let split = extract_from-IsSplit os no_options no_options-IsSplit in
    (es, us, NumberedTo-Numbered _ 0 _ split.e_numbers, NumberedTo-Numbered _ 0 _ split.u_numbers)
