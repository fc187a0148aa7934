-- ===== src/Exchange/Cipher.antt =====
-- What one endpoint encrypts the other decrypts (src/oscore/oscore_cose.c, src/oscore/coap2oscore.c
-- and src/oscore/oscore2coap.c).
use zephyr_uoscore_uedhoc.Prelude.{
  ◌≡◌, drop, length, some, u32, ◌++◌, ◌+◌, ◌≤◌, [], arith, refl, sub32, ◌∙◌, sym,
}
use zephyr_uoscore_uedhoc.Context.Cose.{
  create_enc_structure, oscore_cose_decrypt, oscore_cose_encrypt,
}
use zephyr_uoscore_uedhoc.Crypto.Wrapper.{aead_decrypt, aead_encrypt}
use zephyr_uoscore_uedhoc.Memory.Laws.{read_some, check_fits, read_all, store_fits}
use zephyr_uoscore_uedhoc.Protect.Steps.{plaintext_encrypt}
use zephyr_uoscore_uedhoc.Memory.{ByteArray, Bytes, ok, of_bytes}
use zephyr_uoscore_uedhoc.Unprotect.Steps.{payload_decrypt}
use zephyr_uoscore_uedhoc.Context.{Context, max_aad_len}
use zephyr_uoscore_uedhoc.Crypto.{External}
use zephyr_uoscore_uedhoc.Coap.{CoapPacket}
use zephyr_uoscore_uedhoc.Protect.{max_ciphertext_len, max_plaintext_len}

-- The sender of a message and its recipient hold one nonce, AAD and key, of which the encoder
-- makes an encryption structure.
pub record Agree (ex : External) (sender recipient : Context) : Type 0 where
  pub nonce : recipient.rrc.nonce ≡ sender.rrc.nonce
  pub aad : recipient.rrc.aad ≡ sender.rrc.aad
  pub key : recipient.rc.recipient_key ≡ sender.sc.sender_key
  pub nonce_len : sender.rrc.nonce.len ≡ 13
  pub nonce_there : 13 ≤ length sender.rrc.nonce.ptr
  pub key_there : 16 ≤ length sender.sc.sender_key.ptr
  pub aad_len : sender.rrc.aad.len ≤ 14
  pub structure : ByteArray
  pub structured :
      create_enc_structure ex sender.rrc.aad (u32 (sender.rrc.aad.len + 16)) ≡ ok structure
  pub structure_there : structure.len ≤ length structure.ptr

module _ (ex : External) where
  -- AES-CCM with a tag of eight bytes: it takes every key of 16 and nonce of 13 bytes, its
  -- ciphertext is the tag longer, and its decryption takes it back.
  abbrev pub IsCipher : Type 0
  IsCipher =
      (k n a m : Bytes)
      → length k ≡ 16
      → length n ≡ 13
      → (c : Bytes) × (ex.tc_ccm_generation_encryption k n 8 a m ≡ some c)
        × (ex.tc_ccm_decryption_verification k n 8 a c ≡ some m)
        × (length c ≡ length m + 8)

  aead_lem :
      (key nonce aad : ByteArray) (m : Bytes)
      → IsCipher
      → 16 ≤ length key.ptr
      → nonce.len ≡ 13
      → 13 ≤ length nonce.ptr
      → aad.len ≤ length aad.ptr
      → length m ≤ 128
      → (c : Bytes) × (aead_encrypt ex (of_bytes m) key nonce aad (length m) 8 ≡ ok c)
        × (length c ≡ length m + 8)
        × (aead_decrypt ex (record { len = length m + 8; ptr = c }) key nonce aad (length m) 8
            ≡ ok m)
  unfolding aead_encrypt aead_decrypt
  aead_lem key nonce aad m law hk hl hn ha fits =
      let (k, rk, lk) = read_some 16 key.ptr hk in
      let (n, rn, ln) = read_some nonce.len nonce.ptr (omega arith) in
      let (a, ra, la) = read_some aad.len aad.ptr ha in
      let (c, enc, dec, size) = law k n a m lk (ln ∙ hl) in
      let len : u32 (length m + 8) ≡ length m + 8 = omega arith in
      (
        c,
        rw (rk, rn, ra, read_all (length m) m refl, enc, len)
            (store_fits (length m + 8) [] c (omega arith)),
        size,
        rw (rk, rn, ra, read_all (length m + 8) c (sym size), dec)
            (store_fits (length m) [] m (omega arith)),
      )

  -- The ciphertext of a message, and what the recipient makes of a packet with it.
  pub payload_decrypt-plaintext_encrypt :
      (sender recipient : Context) (m old : Bytes)
      → IsCipher
      → Agree ex sender recipient
      → length m ≤ 128
      → (c : Bytes) × (plaintext_encrypt ex m (length m) sender ≡ ok c)
        × (length c ≡ length m + 8)
        × ((q : CoapPacket)
            → q.payload_len ≡ length c
            → q.payload ≡ c
            → payload_decrypt ex q old recipient
              ≡ ok (record { len = length m; ptr = m ++ drop (length m) old }))
  unfolding plaintext_encrypt payload_decrypt oscore_cose_encrypt oscore_cose_decrypt
  payload_decrypt-plaintext_encrypt sender recipient m old law h fits =
      let e =
        aead_lem sender.sc.sender_key sender.rrc.nonce h.structure m law h.key_there h.nonce_len
          h.nonce_there h.structure_there fits in
      let aad_len : u32 (sender.rrc.aad.len + 16) ≤ 30 = let a = h.aad_len in omega arith in
      let len : u32 (length m + 8) ≡ length m + 8 = omega arith in
      let back : sub32 (length m + 8) 8 ≡ length m = omega arith in
      (
        e.0,
        rw (
          len,
          check_fits max_ciphertext_len (length m + 8) (omega arith),
          check_fits max_aad_len (u32 (sender.rrc.aad.len + 16)) aad_len,
          h.structured,
          back,
          e.1,
        ),
        e.2,
        λ q l b. rw (
          l,
          b,
          h.nonce,
          h.aad,
          h.key,
          e.2,
          back,
          check_fits max_plaintext_len (length m) fits,
          check_fits max_aad_len (u32 (sender.rrc.aad.len + 16)) aad_len,
          h.structured,
          e.3,
        ),
      )
