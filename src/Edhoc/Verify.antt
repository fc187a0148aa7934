-- ===== src/Edhoc/Verify.antt =====
-- What a receiver accepts (src/edhoc/signature_or_mac_msg.c).
use zephyr_uoscore_uedhoc.Edhoc.Authentication.{mac, signature_struct_gen}
use zephyr_uoscore_uedhoc.Edhoc.Wrapper.{sign, verify}
use zephyr_uoscore_uedhoc.Prelude.{
  ◌≡◌, ◌↔◌, true, ◌++◌, length, [], refl, ◌∷◌, Bool, append-nil, arith, false, take, sym,
}
use zephyr_uoscore_uedhoc.Memory.{Bytes, ok, array_equals_from, check_buffer_size, read}
use zephyr_uoscore_uedhoc.Edhoc.Authentication.{
  Statement, signature_or_mac_generate, signature_or_mac_verify,
}
use zephyr_uoscore_uedhoc.Edhoc.Suites.{Suite, sha_256, SignAlg, eddsa, es256, other_sign}
use zephyr_uoscore_uedhoc.Edhoc.Coders.{EdhocExternal}
use zephyr_uoscore_uedhoc.OscoreOption.RoundTrip.{received}
use zephyr_uoscore_uedhoc.Memory.Laws.{bind_ok, ok_inj, read_all, read_ok}

-- The comparison of `n` bytes succeeds on a common prefix
pub array_equals_from-prefix :
    (xs ys : Bytes)
    → (array_equals_from (length xs) ys xs ≡ ok true) ↔ ((rest : Bytes) × (xs ++ rest ≡ ys))
unfolding array_equals_from
array_equals_from-prefix [] [] = (λ e. ([], refl), λ e. refl)
array_equals_from-prefix [] (y ∷ ys) = (λ e. (y ∷ ys, refl), λ e. refl)
array_equals_from-prefix (x ∷ xs) [] = ground arith
array_equals_from-prefix (x ∷ xs) (y ∷ ys) = ground (arith, array_equals_from-prefix xs ys)

array_equals_from_self : (xs : Bytes) → array_equals_from (length xs) xs xs ≡ ok true
array_equals_from_self xs = (array_equals_from-prefix xs xs).1 ([], append-nil xs)

module _ (ex : EdhocExternal) where
  -- Under a pair of keys a signature is accepted.
  verify-sign :
      (alg : SignAlg) (sk pk msg out : Bytes)
      → ((m : Bytes) → length (ex.edsign_sign (take 32 pk) (take 32 sk) m) ≡ 64)
      → ((m : Bytes)
          → ex.edsign_verify (ex.edsign_sign (take 32 pk) (take 32 sk) m) (take 32 pk) m ≡ true)
      → sign ex alg sk pk msg ≡ ok out
      → verify ex alg pk msg out ≡ ok true
  verify-sign eddsa sk pk msg out len law e =
      let p = bind_ok (read 32 pk) _ out e in
      let s = bind_ok (read 32 sk) _ out p.2 in
      let public : take 32 pk ≡ p.0 = (read_ok 32 pk p.0 p.1).1 in
      let secret : take 32 sk ≡ s.0 = (read_ok 32 sk s.0 s.1).1 in
      let sgn : ex.edsign_sign (take 32 pk) (take 32 sk) msg ≡ out =
        rw (public, secret) (ok_inj s.2) in
      let size : 64 ≡ length out = rw (← sgn) (sym (len msg)) in
      rw (read_all 64 out size, p.1, ← public, ← sgn, law msg) refl
  verify-sign es256 sk pk msg out len law e = ground arith
  verify-sign other_sign sk pk msg out len law e = ground arith

  -- With static DH keys, a receiver that computes the MAC accepts exactly the beginnings of the
  -- MAC, the empty one included.
  pub signature_or_mac_verify-prefix :
      (s : Statement) (suite : Suite) (pk mac_bytes received : Bytes)
      → suite.edhoc_hash ≡ sha_256
      → mac ex s true suite ≡ ok mac_bytes
      → (signature_or_mac_verify ex s true suite pk received ≡ ok tt)
        ↔ ((rest : Bytes) × (received ++ rest ≡ mac_bytes))
  unfolding signature_or_mac_verify check_buffer_size
  signature_or_mac_verify-prefix s suite pk mac_bytes received h m =
      ground (arith, array_equals_from-prefix received mac_bytes)

  -- What one party generates, the other accepts, when it authenticates the same statement with
  -- the public key of the signing pair.
  pub signature_or_mac_verify-generate :
      (s : Statement) (static_dh : Bool) (suite : Suite) (sk pk out : Bytes)
      → suite.edhoc_hash ≡ sha_256
      → ((msg : Bytes) → length (ex.edsign_sign (take 32 pk) (take 32 sk) msg) ≡ 64)
      → ((msg : Bytes)
          → ex.edsign_verify (ex.edsign_sign (take 32 pk) (take 32 sk) msg) (take 32 pk) msg ≡ true)
      → signature_or_mac_generate ex s static_dh suite sk pk ≡ ok out
      → signature_or_mac_verify ex s static_dh suite pk out ≡ ok tt
  unfolding signature_or_mac_generate signature_or_mac_verify check_buffer_size
  signature_or_mac_verify-generate s true suite sk pk out h len law e =
      ground (arith, array_equals_from_self out)
  signature_or_mac_verify-generate s false suite sk pk out h len law e =
      let m = bind_ok (mac ex s false suite) _ out e in
      let t = bind_ok (signature_struct_gen ex s m.0) _ out m.2 in
      rw (m.1, t.1, verify-sign suite.edhoc_sign sk pk t.0 out len law t.2, h) refl
