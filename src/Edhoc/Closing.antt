-- ===== src/Edhoc/Closing.antt =====
-- Message 4, from the responder to the initiator (`msg4_gen` of src/edhoc/responder.c,
-- `msg4_process` of src/edhoc/initiator.c).
use zephyr_uoscore_uedhoc.Prelude.{
  ℕ, ◌+◌, ◌≡◌, ◌≤◌, refl, sym, ap, arith, length, some, [], ◌∙◌, u32,
}
use zephyr_uoscore_uedhoc.Memory.{ok, Bytes, ByteArray, check_buffer_size}
use zephyr_uoscore_uedhoc.Edhoc.Strings.{Reads}
use zephyr_uoscore_uedhoc.Edhoc.Ciphertext.{
  key_length, Ciphertext, ciphertext4, ciphertext_default_size, ciphertext_encrypt, ciphertext_gen,
  gen_aad, gen_ead, gen_id_and_mac, gen_plaintext, keys_for, split_plaintext,
}
use zephyr_uoscore_uedhoc.Edhoc.Suites.{Suite, get_aead_mac_len}
use zephyr_uoscore_uedhoc.Edhoc.Responder.{msg4_gen}
use zephyr_uoscore_uedhoc.Edhoc.Coders.{EdhocExternal}
use zephyr_uoscore_uedhoc.Edhoc.Messages.{
  ResponderContext, RuntimeContext, Secrets, msg_2_default_size,
}
use zephyr_uoscore_uedhoc.Edhoc.Opening.{copy_s-Reads_fits}
use zephyr_uoscore_uedhoc.Memory.Laws.{bind_ok, ok_inj, store_ok}
use zephyr_uoscore_uedhoc.Edhoc.Authentication.{decode_byte_string, encode_byte_string}
use zephyr_uoscore_uedhoc.Crypto.Expand.{expect-some}
use zephyr_uoscore_uedhoc.Edhoc.Recover.{ciphertext_decrypt_split-gen}
use zephyr_uoscore_uedhoc.Edhoc.Initiator.{msg4_process}

module _ (ex : EdhocExternal) where
  -- A ciphertext has a plaintext, and fits its buffer.
  ciphertext_gen-parts :
      (ctxt : Ciphertext) (suite : Suite) (id_cred sgn ead prk th c : Bytes)
      → ciphertext_gen ex ctxt suite id_cred sgn ead prk th ≡ ok c
      → (p : Bytes) × (gen_plaintext ex ctxt id_cred sgn ead ≡ ok p) × (length c ≤ 650)
  unfolding ciphertext_gen
  ciphertext_gen-parts ctxt suite id_cred sgn ead prk th c e =
      let tag = get_aead_mac_len suite.edhoc_aead in
      let p = bind_ok (gen_plaintext ex ctxt id_cred sgn ead) _ c e in
      let k = bind_ok (keys_for ex ctxt suite prk th (length p.0)) _ c p.2 in
      let z = bind_ok (check_buffer_size 16 tag) _ c k.2 in
      let a = bind_ok (gen_aad ex ctxt th) _ c z.2 in
      let o =
        bind_ok
          (ciphertext_encrypt ex ctxt p.0 (key_length ctxt suite (length p.0)) k.0 a.0 (length p.0)
            tag)
          _ c a.2 in
      let w = store_ok 650 [] o.0 c o.2 in (p.0, p.1, omega (arith, w.0, ap length w.1))

  empty_plaintext : (p : Bytes) → gen_plaintext ex ciphertext4 [] [] [] ≡ ok p → p ≡ []
  unfolding gen_plaintext gen_id_and_mac gen_ead
  empty_plaintext p e =
      let z = bind_ok (check_buffer_size 128 (u32 2)) _ p e in
      let s = bind_ok (encode_byte_string ex [] (u32 2)) _ p z.2 in sym (ok_inj s.2)

  -- The message 4 that a responder wrote without external authorization data is accepted by the
  -- initiator with the same suite, key and TH_4, and carries none, where the AEAD decrypts what it
  -- encrypts with a ciphertext that is the tag longer, and the coder decodes its strings.
  pub msg4_process-gen :
      (c : ResponderContext) (rc rc' rc_i : RuntimeContext) (s : Secrets) (n : ℕ)
      → ((k n a m out : Bytes) (t : ℕ)
          → ex.crypto.tc_ccm_generation_encryption k n t a m ≡ some out
          → (ex.crypto.tc_ccm_decryption_verification k n t a out ≡ some m)
            × (length out ≡ length m + t))
      → ((n : ℕ) (b out : Bytes)
          → ex.cbor_encode_bstr_type_b_str n b ≡ some out
          → (s : ByteArray) × (ex.cbor_decode_bstr_type_b_str out ≡ some s) × Reads s b)
      → c.ead_4 ≡ []
      → rc_i.suite ≡ rc.suite
      → rc_i.msg4 ≡ rc'.msg4
      → msg4_gen ex c rc s ≡ ok rc'
      → msg4_process ex rc_i n s ≡ ok []
  unfolding msg4_gen msg4_process decode_byte_string encode_byte_string split_plaintext
  msg4_process-gen c rc rc' rc_i s n aead law none_ suite msg h =
      let g =
        bind_ok (ciphertext_gen ex ciphertext4 rc.suite [] [] c.ead_4 s.prk_4x3m s.th4) _ rc' h in
      let b = bind_ok (encode_byte_string ex g.0 msg_2_default_size) _ rc' g.2 in
      let sent : b.0 ≡ rc'.msg4 = ap (λ (z : RuntimeContext). z.msg4) (ok_inj b.2) in
      let gen : ciphertext_gen ex ciphertext4 rc.suite [] [] [] s.prk_4x3m s.th4 ≡ ok g.0 =
        ap (λ e. ciphertext_gen ex ciphertext4 rc.suite [] [] e s.prk_4x3m s.th4) (sym none_)
        ∙ g.1 in
      let p = ciphertext_gen-parts ciphertext4 rc.suite [] [] [] s.prk_4x3m s.th4 g.0 gen in
      let plain : gen_plaintext ex ciphertext4 [] [] [] ≡ ok [] =
        p.1 ∙ ap ok (empty_plaintext p.0 p.1) in
      let l = law msg_2_default_size g.0 rc'.msg4 (expect-some _ b.0 b.1 ∙ ap some sent) in
      let split =
        ciphertext_decrypt_split-gen ex ciphertext4 rc.suite [] [] [] s.prk_4x3m s.th4 [] g.0 0 0 n
          refl aead plain gen in
      rw (msg, l.1, copy_s-Reads_fits ciphertext_default_size l.0 g.0 l.2 p.2, suite, split) refl
