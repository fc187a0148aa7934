-- ===== src/Edhoc/Overflow.antt =====
-- What a ciphertext that does not fit does to its buffer (src/edhoc/ciphertext.c).
use zephyr_uoscore_uedhoc.Prelude.{ℕ, ◌≡◌, [], arith, false, length, some, ◌+◌, ◌<◌}
use zephyr_uoscore_uedhoc.Edhoc.Guards.{tag_small}
use zephyr_uoscore_uedhoc.Edhoc.Recover.{aead_decrypt-encrypt}
use zephyr_uoscore_uedhoc.Memory.{Bytes, fault, of_bytes, ok, store}
use zephyr_uoscore_uedhoc.Edhoc.Suites.{Suite, get_aead_mac_len}
use zephyr_uoscore_uedhoc.Edhoc.Ciphertext.{
  Ciphertext, KeyIv, ciphertext_encrypt, ciphertext_gen, gen_aad, gen_plaintext, is_ciphertext2,
  keys_for,
}
use zephyr_uoscore_uedhoc.Memory.Laws.{check_fits}
use zephyr_uoscore_uedhoc.Edhoc.Coders.{EdhocExternal}
use zephyr_uoscore_uedhoc.Crypto.Wrapper.{aead_encrypt}

store_over : (cap : ℕ) (bytes : Bytes) → cap < length bytes → store cap [] bytes ≡ fault
unfolding store
store_over cap bytes h = ground arith

module _ (ex : EdhocExternal) where
  -- Messages 3 and 4: the buffers for the plaintext and for the ciphertext have the same size, so
  -- where the plaintext fits and the tag behind it does not, ciphertext_gen writes behind the end
  -- of its output. The hypotheses are that the AEAD decrypts what it encrypts with a ciphertext
  -- that is the tag longer, and that every step before the write succeeds.
  pub ciphertext_gen-overflows :
      (ctxt : Ciphertext) (suite : Suite) (id_cred sgn ead prk th p aad out : Bytes) (keys : KeyIv)
      → is_ciphertext2 ctxt ≡ false
      → ((k n a m c : Bytes) (t : ℕ)
          → ex.crypto.tc_ccm_generation_encryption k n t a m ≡ some c
          → (ex.crypto.tc_ccm_decryption_verification k n t a c ≡ some m)
            × (length c ≡ length m + t))
      → gen_plaintext ex ctxt id_cred sgn ead ≡ ok p
      → keys_for ex ctxt suite prk th (length p) ≡ ok keys
      → gen_aad ex ctxt th ≡ ok aad
      → aead_encrypt ex.crypto
          (of_bytes p)
          (of_bytes keys.key)
          (of_bytes keys.iv)
          (of_bytes aad)
          (length p)
          (get_aead_mac_len suite.edhoc_aead)
        ≡ ok out
      → 650 < length p + get_aead_mac_len suite.edhoc_aead
      → ciphertext_gen ex ctxt suite id_cred sgn ead prk th ≡ fault
  unfolding ciphertext_gen ciphertext_encrypt
  ciphertext_gen-overflows ctxt suite id_cred sgn ead prk th p aad out keys two law g k a e over =
      let tag = get_aead_mac_len suite.edhoc_aead in
      let dec = aead_decrypt-encrypt ex p keys.key keys.iv aad out tag law e in
      let large : 650 < length out = omega (arith, dec.1, over) in
      rw (g, k, check_fits 16 tag (tag_small ex suite.edhoc_aead), a, two, e)
        (store_over 650 out large)
