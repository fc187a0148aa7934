-- ===== src/Edhoc/Guards.antt =====
-- What must hold before a party goes on (src/edhoc/responder.c, src/edhoc/ciphertext.c,
-- src/edhoc/cert.c).
use zephyr_uoscore_uedhoc.Edhoc.Wrapper.{verify}
use zephyr_uoscore_uedhoc.Edhoc.Authentication.{mac, decode_byte_string, signature_or_mac_verify}
use zephyr_uoscore_uedhoc.Edhoc.Plaintext.{SplitPlaintext, plaintext_default_size}
use zephyr_uoscore_uedhoc.Prelude.{
  ℕ, ◌≡◌, ◌≢◌, ◌≤◌, ◌<◌, refl, arith, Bool, true, false, List, ◌∷◌, ◌++◌, length, take,
  if◌then◌else◌, ap, sym, ◌∙◌, [],
}
use zephyr_uoscore_uedhoc.Memory.{
  Bytes, ok, err, error_message_sent, signature_authentication_failed, check_buffer_size, read,
  array_equals_from,
}
use zephyr_uoscore_uedhoc.Edhoc.Ciphertext.{
  Ciphertext, ciphertext_decrypt_split, is_ciphertext2, text_length, ciphertext3,
  ciphertext_default_size, keys_for,
}
use zephyr_uoscore_uedhoc.Edhoc.Support.{member, selected_suite_is_supported-member}
use zephyr_uoscore_uedhoc.Edhoc.Coders.{EdhocExternal}
use zephyr_uoscore_uedhoc.Edhoc.Responder.{
  ParsedMsg1, ProcessedMsg3, msg1_parse, msg2_gen, msg3_process, responder_suite,
}
use zephyr_uoscore_uedhoc.Edhoc.Messages.{ResponderContext, RuntimeContext, last_suite}
use zephyr_uoscore_uedhoc.Edhoc.Authentication.{Statement, signature_struct_gen}
use zephyr_uoscore_uedhoc.Edhoc.Suites.{
  Suite, eddsa, get_aead_mac_len, get_hash_len, AeadAlg, aes_ccm_16_128_128, aes_ccm_16_64_128,
  other_aead,
}
use zephyr_uoscore_uedhoc.Edhoc.Credentials.{OtherPartyCred, Retrieved, ca_pk_get, retrieve_cred}
use zephyr_uoscore_uedhoc.Edhoc.Initiator.{statement_3}
use zephyr_uoscore_uedhoc.Edhoc.Keys.{associated_data_encode, prk_derive}
use zephyr_uoscore_uedhoc.Memory.Laws.{bind_ok, ok_inj, read_ok, check_ok}

begins : (xs more : Bytes) → array_equals_from (length xs) xs (xs ++ more) ≡ ok true
unfolding array_equals_from
begins [] [] = refl
begins [] (y ∷ more) = refl
begins (x ∷ xs) more = ground (arith, begins xs more)

-- A CA is taken for the issuer of a certificate as soon as its name begins the issuer's, so an
-- entry whose CA has no name answers for every issuer.
pub ca_pk_get-begins :
    (entry : OtherPartyCred) (cred_array : List OtherPartyCred) (more : Bytes)
    → ca_pk_get (entry ∷ cred_array) (entry.ca ++ more) ≡ ok entry.ca_pk
unfolding ca_pk_get
ca_pk_get-begins entry cred_array more = rw (begins entry.ca more) refl

module _ (ex : EdhocExternal) where
  -- A selected suite that the responder, which supports at most 255, does not have: whatever else
  -- message 1 holds, the responder ends with `error_message_sent`.
  pub msg2_gen-unsupported :
      (c : ResponderContext) (rc : RuntimeContext) (n selected : ℕ) (p : ParsedMsg1)
      → length c.suites_r ≤ 255
      → msg1_parse ex rc.msg1 n ≡ ok p
      → last_suite p.suites_i ≡ ok selected
      → member selected c.suites_r ≡ false
      → msg2_gen ex c rc n ≡ err error_message_sent
  unfolding msg2_gen responder_suite
  msg2_gen-unsupported c rc n selected p few parse last none_ =
      rw (parse, last, selected_suite_is_supported-member selected c.suites_r few, none_) refl

  verified :
      (b : Bool)
      → (if b then ok (tt {0}) else err signature_authentication_failed) ≡ ok (tt {0})
      → b ≡ true
  verified true e = refl
  verified false e = ground arith

  signature_or_mac_verify-signed :
      (s : Statement) (suite : Suite) (pk sgn : Bytes) (u : Unit {0})
      → suite.edhoc_sign ≡ eddsa
      → signature_or_mac_verify ex s false suite pk sgn ≡ ok u
      → (mac_bytes : Bytes) × (structure : Bytes) × (mac ex s false suite ≡ ok mac_bytes)
        × (signature_struct_gen ex s mac_bytes ≡ ok structure)
        × (ex.edsign_verify (take 64 sgn) (take 32 pk) structure ≡ true)
  unfolding signature_or_mac_verify
  signature_or_mac_verify-signed s suite pk sgn u alg h =
      let z = bind_ok (check_buffer_size 32 (get_hash_len suite.edhoc_hash)) _ u h in
      let m = bind_ok (mac ex s false suite) _ u z.2 in
      let t = bind_ok (signature_struct_gen ex s m.0) _ u m.2 in
      let v = bind_ok (verify ex suite.edhoc_sign pk t.0 sgn) _ u t.2 in
      let w : verify ex eddsa pk t.0 sgn ≡ ok true =
        ap (λ a. verify ex a pk t.0 sgn) (sym alg) ∙ v.1 ∙ ap ok (verified v.0 v.2) in
      let a = bind_ok (read 64 sgn) _ true w in
      let b = bind_ok (read 32 pk) _ true a.2 in
      (
        m.0,
        t.0,
        m.1,
        t.1,
        ap (λ x. ex.edsign_verify x (take 32 pk) t.0) (read_ok 64 sgn a.0 a.1).1
            ∙ ap (λ x. ex.edsign_verify a.0 x t.0) (read_ok 32 pk b.0 b.1).1
            ∙ ok_inj b.2,
      )

  -- Before `msg3_process` returns in a run where the initiator signs, the initiator's ciphertext
  -- was decrypted, a credential was retrieved, and its public key verified a signature over a
  -- structure of the responder's own TH_3 and that credential.
  pub msg3_process-signed :
      (c : ResponderContext) (rc : RuntimeContext) (creds : List OtherPartyCred) (n : ℕ)
      (p : ProcessedMsg3)
      → rc.static_dh_i ≡ false
      → rc.suite.edhoc_sign ≡ eddsa
      → msg3_process ex c rc creds n ≡ ok p
      → (s : Statement) × (r : Retrieved) × (mac_bytes : Bytes) × (structure : Bytes)
        × (sgn : Bytes) × (retrieve_cred ex false creds s.id_cred ≡ ok r)
        × (s.th ≡ rc.th3)
        × (s.cred ≡ r.cred)
        × (mac ex s false rc.suite ≡ ok mac_bytes)
        × (signature_struct_gen ex s mac_bytes ≡ ok structure)
        × (ex.edsign_verify (take 64 sgn) (take 32 r.pk) structure ≡ true)
  unfolding msg3_process
  msg3_process-signed c rc creds n p signed alg h =
      let d = bind_ok (decode_byte_string ex rc.msg3 ciphertext_default_size) _ p h in
      let s =
        bind_ok (ciphertext_decrypt_split ex ciphertext3 rc.suite 600 128 n rc.prk_3e2m rc.th3 d.0)
          _ p d.2 in
      let i = bind_ok (read s.0.id_cred_x.len s.0.id_cred_x.ptr) _ p s.2 in
      let r = bind_ok (retrieve_cred ex rc.static_dh_i creds i.0) _ p i.2 in
      let k = bind_ok (prk_derive ex rc.static_dh_i rc.suite rc.prk_3e2m r.0.g c.y) _ p r.2 in
      let said = statement_3 k.0 rc.th3 i.0 r.0.cred s.0.ad in
      let v =
        bind_ok (signature_or_mac_verify ex said rc.static_dh_i rc.suite r.0.pk s.0.sign_or_mac) _ p
          k.2 in
      let w = signature_or_mac_verify-signed said rc.suite r.0.pk s.0.sign_or_mac v.0 alg (
        ap (λ b. signature_or_mac_verify ex said b rc.suite r.0.pk s.0.sign_or_mac) (sym signed)
        ∙ v.1) in
      (
        said,
        r.0,
        w.0,
        w.1,
        s.0.sign_or_mac,
        ap (λ b. retrieve_cred ex b creds i.0) (sym signed) ∙ r.1,
        refl,
        refl,
        w.2,
        w.3,
        w.4,
      )

  pub tag_small : (alg : AeadAlg) → get_aead_mac_len alg ≤ 16
  tag_small aes_ccm_16_64_128 = ground arith
  tag_small aes_ccm_16_128_128 = ground arith
  tag_small other_aead = ground arith

  text_length-wraps :
      (ctxt : Ciphertext) (suite : Suite) (n : ℕ)
      → is_ciphertext2 ctxt ≡ false
      → n < get_aead_mac_len suite.edhoc_aead
      → 650 < text_length ex ctxt suite n
  unfolding text_length
  text_length-wraps ctxt suite n two short =
      let small = tag_small suite.edhoc_aead in rw two (omega (arith, small, short))

  -- A ciphertext 3 or 4 that is shorter than its tag is never accepted.
  pub ciphertext_decrypt_split-short :
      (ctxt : Ciphertext) (suite : Suite) (id_len sgn_len ead_len : ℕ) (prk th c : Bytes)
      (s : SplitPlaintext)
      → is_ciphertext2 ctxt ≡ false
      → length c < get_aead_mac_len suite.edhoc_aead
      → ciphertext_decrypt_split ex ctxt suite id_len sgn_len ead_len prk th c ≢ ok s
  unfolding ciphertext_decrypt_split
  ciphertext_decrypt_split-short ctxt suite id_len sgn_len ead_len prk th c s two short h =
      let k = bind_ok (keys_for ex ctxt suite prk th (length c)) _ s h in
      let a = bind_ok (associated_data_encode ex th 64) _ s k.2 in
      let z =
        bind_ok (check_buffer_size plaintext_default_size (text_length ex ctxt suite (length c))) _
          s a.2 in
      let fits = check_ok 650 (text_length ex ctxt suite (length c)) z.0 z.1 in
      let wraps = text_length-wraps ctxt suite (length c) two short in omega (arith, fits, wraps)
