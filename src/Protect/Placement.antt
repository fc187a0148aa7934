-- ===== src/Protect/Placement.antt =====
-- Where `oscore_pkg_generate` (src/oscore/coap2oscore.c) puts the OSCORE option.
use zephyr_uoscore_uedhoc.Prelude.{
  ℕ, All, Bool-cases, List, [], arith, if◌then◌else◌, inl, inr, ltb, refl, leb, suc, length, ◌==◌,
  ◌+◌, ◌<◌, ◌∷◌, ◌≡◌, ◌≤◌, false, true,
}
use zephyr_uoscore_uedhoc.Memory.{Bytes, ok}
use zephyr_uoscore_uedhoc.Coap.{CoapOption, CoapPacket, max_option_count}
use zephyr_uoscore_uedhoc.Coap.RoundTrip.{Numbered}
use zephyr_uoscore_uedhoc.OscoreOption.{OscoreOption}
use zephyr_uoscore_uedhoc.Options.{coap_option_oscore}
use zephyr_uoscore_uedhoc.Protect.{code_req_post, code_resp_changed, is_request_code}
use zephyr_uoscore_uedhoc.Protect.Classes.{renumbered_sum}
use zephyr_uoscore_uedhoc.Protect.Parts.{
  oscore_as_option, oscore_opt_pos, oscore_pkg_generate, place_options, place_rest,
}

abbrev pub numbers : List CoapOption → List ℕ
numbers [] = []
numbers (o ∷ os) = o.option_number ∷ numbers os

-- The numbers with the OSCORE option's before the first larger one.
abbrev pub with_oscore : List ℕ → List ℕ
with_oscore [] = coap_option_oscore ∷ []
with_oscore (n ∷ ns) =
    if ltb coap_option_oscore n then coap_option_oscore ∷ n ∷ ns else n ∷ with_oscore ns

abbrev pub IsNumber : CoapOption → Type 0
IsNumber o = o.option_number < 256

oscore_opt_pos_le : (i : ℕ) (us : List CoapOption) → i ≤ oscore_opt_pos i us
unfolding oscore_opt_pos
oscore_opt_pos_le i [] = omega arith
oscore_opt_pos_le i (u ∷ us) = ground (arith, oscore_opt_pos_le (i + 1) us)

place_rest-Numbered :
    (us : List CoapOption) (sum : ℕ)
    → All IsNumber us
    → sum < 256
    → Numbered sum (place_rest sum us) × (numbers (place_rest sum us) ≡ numbers us)
unfolding place_rest
place_rest-Numbered [] sum h lt = (tt, refl)
place_rest-Numbered (u ∷ us) sum (n, h) lt =
    let e = renumbered_sum u.option_number sum n lt in
    let (a, b) = place_rest-Numbered us u.option_number h n in ((e, rw (← e) a), rw (← e, b))

place_options-Numbered :
    (us : List CoapOption) (pos i sum : ℕ) (o : CoapOption)
    → pos ≡ oscore_opt_pos i us
    → All IsNumber us
    → o.option_number ≡ coap_option_oscore
    → sum < 256
    → Numbered sum (place_options pos i sum o us)
      × (numbers (place_options pos i sum o us) ≡ with_oscore (numbers us))
unfolding place_options oscore_opt_pos
place_options-Numbered [] pos i sum o c h n lt =
    let here : (i == pos) ≡ true = ground arith in
    let e = renumbered_sum o.option_number sum (omega arith) lt in rw here ((e, tt), rw n)
place_options-Numbered (u ∷ us) pos i sum o c (m, h) n lt =
    elim (Bool-cases (ltb coap_option_oscore u.option_number)) [
      | inl larger ↦
          let here : (i == pos) ≡ true = ground arith in
          let e = renumbered_sum o.option_number sum (omega arith) lt in
          let (a, b) = place_rest-Numbered (u ∷ us) o.option_number (m, h) (omega arith) in
          rw (larger, here) ((e, rw (← e) a), rw (← e, b, n))
      | inr smaller ↦
          let c' : pos ≡ oscore_opt_pos (i + 1) us = rw smaller at c in
          let le = oscore_opt_pos_le (i + 1) us in
          let later : (i == pos) ≡ false = ground arith in
          let e = renumbered_sum u.option_number sum m lt in
          let (a, b) = place_options-Numbered us pos (i + 1) u.option_number o c' h n m in
          rw (smaller, later) ((e, rw (← e) a), rw (← e, b))
    ]

-- In the packet that `oscore_pkg_generate` returns, the OSCORE option stands before the first
-- class U option of a larger number and behind the others, which keep their order, and every
-- number is the sum of the deltas; it returns one where the options fit its array.
pub oscore_pkg_generate-Numbered :
    (p : CoapPacket) (us : List CoapOption) (ciphertext : Bytes) (o : OscoreOption)
    → All IsNumber us
    → o.option_number ≡ coap_option_oscore
    → length us < max_option_count
    → (q : CoapPacket) × (oscore_pkg_generate p us ciphertext o ≡ ok q)
      × Numbered 0 q.options
      × (numbers q.options ≡ with_oscore (numbers us))
unfolding oscore_pkg_generate
oscore_pkg_generate-Numbered p us ciphertext o h n lt =
    let room : leb (suc (length us)) max_option_count ≡ true = ground arith in
    let (a, b) =
      place_options-Numbered us (oscore_opt_pos 0 us) 0 0 (oscore_as_option o) refl h n
        (omega arith) in
    let code = if is_request_code p.header.code then code_req_post else code_resp_changed in
    let q : CoapPacket = record {
      header = record (p.header) { code = code };
      token = if p.header.tkl == 0 then [] else p.token;
      options = place_options (oscore_opt_pos 0 us) 0 0 (oscore_as_option o) us;
      payload_len = length ciphertext;
      payload = ciphertext;
    } in
    (q, rw room, a, b)
