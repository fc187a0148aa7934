-- ===== src/Tests/Ciphertexts.antt =====
-- The theorems on the plaintexts and ciphertexts of EDHOC at concrete arguments.
use zephyr_uoscore_uedhoc.Edhoc.Strings.{Reads}
use zephyr_uoscore_uedhoc.Edhoc.Plaintext.{no_entries}
use zephyr_uoscore_uedhoc.Prelude.{
  ℕ, ◌≡◌, refl, [], ◌∷◌, ◌++◌, replicate, ◌∙◌, sym, ap, some_inj, arith, false, length, some, none,
  length-append, length-replicate, take-append, ◌+◌, ◌-◌,
}
use zephyr_uoscore_uedhoc.Memory.{Bytes, ok, of_bytes, append_s, check_buffer_size, read, store}
use zephyr_uoscore_uedhoc.Edhoc.Authentication.{encode_byte_string}
use zephyr_uoscore_uedhoc.Edhoc.Ciphertext.{
  key_length, Ciphertext, KeyIv, ciphertext2, ciphertext3, ciphertext4, ciphertext_decrypt_split,
  ciphertext_encrypt, ciphertext_gen, gen_ead, gen_id_and_mac, gen_plaintext, is_ciphertext4,
  keys_for, split_plaintext,
}
use zephyr_uoscore_uedhoc.Edhoc.Keys.{
  associated_data_encode, cose_enc_structure_encode, create_hkdf_info, okm_calc,
}
use zephyr_uoscore_uedhoc.Edhoc.Plaintext.{id_cred2kid, plaintext_split}
use zephyr_uoscore_uedhoc.Crypto.Wrapper.{aead_encrypt, expand_loop, hkdf_expand}
use zephyr_uoscore_uedhoc.Edhoc.Recover.{
  ciphertext_decrypt_split-gen, ciphertext_decrypt_split-stream,
}
use zephyr_uoscore_uedhoc.Tests.Peers.{coders, key_bytes, primitives, read_plaintext}
use zephyr_uoscore_uedhoc.Edhoc.Coders.{IdCredMap, PlaintextX, id_kid_int}
use zephyr_uoscore_uedhoc.Edhoc.Delivery.{split_plaintext-gen}
use zephyr_uoscore_uedhoc.Tests.Peers.{second_suite}

abbrev plaintext : Bytes
plaintext = 6 ∷ 1 ∷ 2 ∷ []

abbrev stream : KeyIv
stream = record { key = replicate 3 1; iv = [] }

plaintext_generated :
    (ctxt : Ciphertext)
    → is_ciphertext4 ctxt ≡ false
    → gen_plaintext coders ctxt (6 ∷ []) (1 ∷ 2 ∷ []) [] ≡ ok plaintext
unfolding gen_plaintext check_buffer_size encode_byte_string gen_id_and_mac id_cred2kid append_s
    gen_ead
plaintext_generated ciphertext2 e = refl
plaintext_generated ciphertext3 e = refl
plaintext_generated ciphertext4 e = ground arith

stream_generated : keys_for coders ciphertext2 second_suite key_bytes key_bytes 3 ≡ ok stream
unfolding keys_for check_buffer_size key_length okm_calc create_hkdf_info hkdf_expand expand_loop
    read store
stream_generated = refl

ciphertext_decrypt_split-stream_example :
    (c : Bytes) × (ciphertext_gen coders ciphertext2 second_suite
        (6 ∷ [])
        (1 ∷ 2 ∷ [])
        []
        key_bytes
        key_bytes
      ≡ ok c)
    × (ciphertext_decrypt_split coders ciphertext2 second_suite 600 128 16 key_bytes key_bytes c
        ≡ plaintext_split coders plaintext 600 128 16)
unfolding associated_data_encode cose_enc_structure_encode
ciphertext_decrypt_split-stream_example =
    ciphertext_decrypt_split-stream coders second_suite (6 ∷ []) (1 ∷ 2 ∷ []) [] key_bytes key_bytes
      plaintext key_bytes stream 600 128 16 (omega arith) (plaintext_generated ciphertext2 refl)
      stream_generated refl (omega arith, (omega arith, (omega arith, tt)))
      (omega arith, (omega arith, (omega arith, tt))) (omega arith) (omega arith)

pub tagged :
    (k n a m out : Bytes) (t : ℕ)
    → primitives.tc_ccm_generation_encryption k n t a m ≡ some out
    → (primitives.tc_ccm_decryption_verification k n t a out ≡ some m) × (length out ≡ length m + t)
tagged k n a m out t e =
    let whole : m ++ replicate t 0 ≡ out = (some_inj).0 e in
    let size : length out ≡ length m + t =
      sym (ap length whole)
      ∙ length-append m (replicate t 0)
      ∙ ap (λ x. length m + x) (length-replicate t 0) in
    let rest : length out - t ≡ length m = omega (arith, size) in
    (rw (rest, ← whole) (ap some (take-append m (replicate t 0))), size)

third_generated :
    ciphertext_gen coders ciphertext3 second_suite (6 ∷ []) (1 ∷ 2 ∷ []) [] key_bytes key_bytes
    ≡ ok (plaintext ++ replicate 16 0)
unfolding create_hkdf_info okm_calc cose_enc_structure_encode associated_data_encode
    encode_byte_string id_cred2kid key_length keys_for ciphertext_encrypt gen_id_and_mac gen_ead
    gen_plaintext ciphertext_gen aead_encrypt expand_loop hkdf_expand append_s
third_generated = refl

ciphertext_decrypt_split-gen_example :
    ciphertext_decrypt_split coders ciphertext3 second_suite 600 128 16 key_bytes key_bytes
      (plaintext ++ replicate 16 0)
    ≡ split_plaintext coders ciphertext3 plaintext 3 600 128 16
ciphertext_decrypt_split-gen_example =
    ciphertext_decrypt_split-gen coders ciphertext3 second_suite (6 ∷ []) (1 ∷ 2 ∷ []) [] key_bytes
      key_bytes plaintext (plaintext ++ replicate 16 0) 600 128 16 refl tagged
      (plaintext_generated ciphertext3 refl) third_generated

abbrev six : IdCredMap
six = record no_entries { kid = some 6 }

plaintext_decodes :
    (size size' : ℕ) (kid enc : Bytes)
    → coders.cbor_encode_int_type_i size 6 ≡ some kid
    → coders.cbor_encode_bstr_type_b_str size' (1 ∷ 2 ∷ []) ≡ some enc
    → (x : PlaintextX) × (coders.cbor_decode_plaintext (kid ++ enc) ≡ some x)
      × (x.id_cred_x ≡ id_kid_int 6)
      × Reads x.sgn_or_mac_x (1 ∷ 2 ∷ [])
      × (x.ad_x ≡ none)
plaintext_decodes size size' kid enc h k = (
  record { id_cred_x = id_kid_int 6; sgn_or_mac_x = of_bytes (1 ∷ 2 ∷ []); ad_x = none },
  ap read_plaintext
      (sym (ap (λ x. x ++ enc) ((some_inj).0 h)) ∙ sym (ap (λ x. 6 ∷ x) ((some_inj).0 k))),
  refl,
  ([], refl),
  refl,
)

split_plaintext-gen_example :
    split_plaintext coders ciphertext3 plaintext 3 600 128 16
    ≡ ok (record { id_cred_x = of_bytes (6 ∷ []); sign_or_mac = 1 ∷ 2 ∷ []; ad = [] })
split_plaintext-gen_example =
    split_plaintext-gen coders ciphertext3 (6 ∷ []) (1 ∷ 2 ∷ []) plaintext six 6 600 128 16 refl
      refl refl (omega arith) (λ size out e. omega (arith, ap length ((some_inj).0 e))) refl
      plaintext_decodes (omega arith) (plaintext_generated ciphertext3 refl)
