-- ===== src/Edhoc/Recover.antt =====
-- The receiver of a ciphertext recovers what the sender put into it (src/edhoc/ciphertext.c).
use mathlib.Core.Path.{subst}
use zephyr_uoscore_uedhoc.Prelude.{
  ℕ, suc, ◌+◌, ◌≡◌, ◌≤◌, ◌<◌, refl, arith, false, [], ◌∷◌, All, length, some, ap, bit_xor, le→ltb,
  xor_twice, sym, take_all, u32, ◌∙◌, sub32,
}
use zephyr_uoscore_uedhoc.Memory.{Bytes, ok, check_buffer_size, store, of_bytes, read}
use zephyr_uoscore_uedhoc.Edhoc.Suites.{Suite, get_aead_mac_len}
use zephyr_uoscore_uedhoc.Edhoc.Ciphertext.{
  key_length, Ciphertext, KeyIv, ciphertext2, ciphertext_decrypt, ciphertext_decrypt_split,
  ciphertext_encrypt, ciphertext_gen, gen_plaintext, is_ciphertext2, keys_for, split_plaintext,
  text_length, xor_arrays, ciphertext3, ciphertext4, gen_aad,
}
use zephyr_uoscore_uedhoc.Edhoc.Coders.{EdhocExternal}
use zephyr_uoscore_uedhoc.Edhoc.Keys.{associated_data_encode}
use zephyr_uoscore_uedhoc.Edhoc.Plaintext.{plaintext_split}
use zephyr_uoscore_uedhoc.Memory.Laws.{
  bind_ok, read_all, read_ok, store_fits, store_ok, check_fits, check_ok,
}
use zephyr_uoscore_uedhoc.Crypto.Wrapper.{aead_decrypt, aead_encrypt, expect}
use zephyr_uoscore_uedhoc.Crypto.Expand.{expect-some}

-- Under a key that is long enough a second `xor_arrays` takes the first one back.
xor_arrays_twice :
    (p key : Bytes)
    → All (λ b. b < 256) p
    → All (λ b. b < 256) key
    → length p ≤ length key
    → (c : Bytes) × (xor_arrays p key (length p) ≡ ok c)
      × (length c ≡ length p)
      × (xor_arrays c key (length p) ≡ ok p)
unfolding xor_arrays
xor_arrays_twice [] key h k l = ([], refl, refl, refl)
xor_arrays_twice (x ∷ p) [] h k l = absurd (omega arith)
xor_arrays_twice (x ∷ p) (y ∷ key) h k l =
    let r = xor_arrays_twice p key h.1 k.1 (omega arith) in
    (bit_xor x y ∷ r.0, rw r.1 refl, ap suc r.2, rw (r.3, xor_twice x y h.0 k.0) refl)

module _ (ex : EdhocExternal) where
  -- Message 2: with the same key and transcript hash, and a keystream as long as the plaintext,
  -- the initiator gets the plaintext that the responder generated and splits it; both calls
  -- succeed up to there.
  pub ciphertext_decrypt_split-stream :
      (suite : Suite) (id_cred sgn ead prk th p aad : Bytes) (keys : KeyIv)
      (id_cred_len sgn_len ead_len : ℕ)
      → get_aead_mac_len suite.edhoc_aead ≤ 16
      → gen_plaintext ex ciphertext2 id_cred sgn ead ≡ ok p
      → keys_for ex ciphertext2 suite prk th (length p) ≡ ok keys
      → associated_data_encode ex th 64 ≡ ok aad
      → All (λ b. b < 256) p
      → All (λ b. b < 256) keys.key
      → length p ≤ length keys.key
      → length p ≤ 650
      → (c : Bytes) × (ciphertext_gen ex ciphertext2 suite id_cred sgn ead prk th ≡ ok c)
        × (ciphertext_decrypt_split ex ciphertext2 suite id_cred_len sgn_len ead_len prk th c
            ≡ plaintext_split ex p id_cred_len sgn_len ead_len)
  unfolding ciphertext_gen ciphertext_decrypt_split ciphertext_encrypt ciphertext_decrypt
      split_plaintext text_length key_length check_buffer_size store
  ciphertext_decrypt_split-stream suite id_cred sgn ead prk th p aad keys id_cred_len sgn_len
        ead_len tag g k a hp hk l fits =
      let r = xor_arrays_twice p keys.key hp hk l in
      (
        r.0,
        rw (g, k, le→ltb 16 (get_aead_mac_len suite.edhoc_aead) tag, r.1) (ground arith),
        rw (r.2, k, a, le→ltb 650 (length p) fits, r.3) refl,
      )

  pub aead_decrypt-encrypt :
      (m key iv aad out : Bytes) (tag : ℕ)
      → ((k n a m out : Bytes) (t : ℕ)
          → ex.crypto.tc_ccm_generation_encryption k n t a m ≡ some out
          → (ex.crypto.tc_ccm_decryption_verification k n t a out ≡ some m)
            × (length out ≡ length m + t))
      → aead_encrypt ex.crypto
          (of_bytes m)
          (of_bytes key)
          (of_bytes iv)
          (of_bytes aad)
          (length m)
          tag
        ≡ ok out
      → (aead_decrypt ex.crypto
            (of_bytes out)
            (of_bytes key)
            (of_bytes iv)
            (of_bytes aad)
            (length m)
            tag
          ≡ ok m)
        × (length out ≡ length m + tag)
  unfolding aead_encrypt aead_decrypt
  aead_decrypt-encrypt m key iv aad out tag law e =
      let k = bind_ok (read 16 key) _ out e in
      let n = bind_ok (read (length iv) iv) _ out k.2 in
      let a = bind_ok (read (length aad) aad) _ out n.2 in
      let r = bind_ok (read (length m) m) _ out a.2 in
      let c =
        bind_ok (expect (ex.crypto.tc_ccm_generation_encryption k.0 n.0 tag a.0 r.0)) _ out r.2 in
      let same : c.0 ≡ out = (store_ok (u32 (length m + tag)) [] c.0 out c.2).1 in
      let whole : r.0 ≡ m =
        sym (read_ok (length m) m r.0 r.1).1 ∙ take_all (length m) m (omega arith) in
      let l = law k.0 n.0 a.0 r.0 c.0 tag (expect-some _ c.0 c.1) in
      let l' : (ex.crypto.tc_ccm_decryption_verification k.0 n.0 tag a.0 out ≡ some m)
          × (length out ≡ length m + tag) =
        subst
          (λ o.
            (ex.crypto.tc_ccm_decryption_verification k.0 n.0 tag a.0 o ≡ some m)
            × (length o ≡ length m + tag))
          same
          (subst
            (λ z.
              (ex.crypto.tc_ccm_decryption_verification k.0 n.0 tag a.0 c.0 ≡ some z)
              × (length c.0 ≡ length z + tag))
            whole l) in
      (
        rw (k.1, n.1, a.1, read_all (length out) out refl, l'.0)
            (store_fits (length m) [] m (omega arith)),
        l'.1,
      )

  keys_for_any :
      (ctxt : Ciphertext) (suite : Suite) (prk th : Bytes) (n n' : ℕ)
      → is_ciphertext2 ctxt ≡ false
      → keys_for ex ctxt suite prk th n ≡ keys_for ex ctxt suite prk th n'
  unfolding keys_for key_length
  keys_for_any ctxt suite prk th n n' two = rw two refl

  gen_aad_not2 :
      (ctxt : Ciphertext) (th : Bytes)
      → is_ciphertext2 ctxt ≡ false
      → gen_aad ex ctxt th ≡ associated_data_encode ex th 64
  gen_aad_not2 ciphertext2 th two = ground arith
  gen_aad_not2 ciphertext3 th two = refl
  gen_aad_not2 ciphertext4 th two = refl

  ciphertext_encrypt-aead :
      (ctxt : Ciphertext) (m aad out : Bytes) (key_len tag : ℕ) (keys : KeyIv)
      → is_ciphertext2 ctxt ≡ false
      → ciphertext_encrypt ex ctxt m key_len keys aad (length m) tag ≡ ok out
      → aead_encrypt ex.crypto
          (of_bytes m)
          (of_bytes keys.key)
          (of_bytes keys.iv)
          (of_bytes aad)
          (length m)
          tag
        ≡ ok out
  unfolding ciphertext_encrypt
  ciphertext_encrypt-aead ctxt m aad out key_len tag keys two e = rw two at e

  -- Messages 3 and 4: under an AEAD whose decryption takes its encryption back and whose
  -- ciphertext is the tag longer, a ciphertext that was generated is decrypted with the same key
  -- and transcript hash, and its plaintext is split.
  pub ciphertext_decrypt_split-gen :
      (ctxt : Ciphertext) (suite : Suite) (id_cred sgn ead prk th p c : Bytes)
      (id_cred_len sgn_len ead_len : ℕ)
      → is_ciphertext2 ctxt ≡ false
      → ((k n a m out : Bytes) (t : ℕ)
          → ex.crypto.tc_ccm_generation_encryption k n t a m ≡ some out
          → (ex.crypto.tc_ccm_decryption_verification k n t a out ≡ some m)
            × (length out ≡ length m + t))
      → gen_plaintext ex ctxt id_cred sgn ead ≡ ok p
      → ciphertext_gen ex ctxt suite id_cred sgn ead prk th ≡ ok c
      → ciphertext_decrypt_split ex ctxt suite id_cred_len sgn_len ead_len prk th c
        ≡ split_plaintext ex ctxt p (length p) id_cred_len sgn_len ead_len
  unfolding ciphertext_gen ciphertext_decrypt_split ciphertext_decrypt text_length
  ciphertext_decrypt_split-gen ctxt suite id_cred sgn ead prk th p c id_cred_len sgn_len ead_len two
        law g e =
      let tag = get_aead_mac_len suite.edhoc_aead in
      let e' = rw g at e in
      let k = bind_ok (keys_for ex ctxt suite prk th (length p)) _ c e' in
      let z = bind_ok (check_buffer_size 16 tag) _ c k.2 in
      let a = bind_ok (gen_aad ex ctxt th) _ c z.2 in
      let o =
        bind_ok
          (ciphertext_encrypt ex ctxt p (key_length ctxt suite (length p)) k.0 a.0 (length p) tag) _
          c a.2 in
      let w = store_ok 650 [] o.0 c o.2 in
      let enc = ciphertext_encrypt-aead ctxt p a.0 c _ tag k.0 two (o.1 ∙ ap ok w.1) in
      let dec = aead_decrypt-encrypt p k.0.key k.0.iv a.0 c tag law enc in
      let keys : keys_for ex ctxt suite prk th (length c) ≡ ok k.0 =
        keys_for_any ctxt suite prk th (length c) (length p) two ∙ k.1 in
      let aad : associated_data_encode ex th 64 ≡ ok a.0 = sym (gen_aad_not2 ctxt th two) ∙ a.1 in
      let small : get_aead_mac_len suite.edhoc_aead ≤ 16 = check_ok 16 tag z.0 z.1 in
      let size : length c ≤ 650 = omega (arith, w.0, ap length w.1) in
      let fits : length p ≤ 650 = omega (arith, size, dec.1) in
      let n : sub32 (length c) tag ≡ length p = omega (arith, size, dec.1, small) in
      rw (two, keys, aad, n, check_fits 650 (length p) fits, dec.0) refl
