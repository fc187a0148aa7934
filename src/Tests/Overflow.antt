-- ===== src/Tests/Overflow.antt =====
-- An external authorization data so large that the ciphertext leaves no room for its tag.
use zephyr_uoscore_uedhoc.Tests.Peers.{second_suite, coders, key_bytes}
use zephyr_uoscore_uedhoc.Tests.Ciphertexts.{tagged}
use zephyr_uoscore_uedhoc.Edhoc.Ciphertext.{
  key_length, KeyIv, ciphertext4, ciphertext_gen, gen_aad, gen_ead, gen_id_and_mac, gen_plaintext,
  keys_for,
}
use zephyr_uoscore_uedhoc.Edhoc.Authentication.{encode_byte_string}
use zephyr_uoscore_uedhoc.Memory.{
  Bytes, append_s, check_buffer_size, fault, of_bytes, ok, read, store,
}
use zephyr_uoscore_uedhoc.Crypto.Wrapper.{aead_encrypt, expand_loop, hkdf_expand}
use zephyr_uoscore_uedhoc.Edhoc.Suites.{get_suite}
use zephyr_uoscore_uedhoc.Edhoc.Keys.{
  associated_data_encode, cose_enc_structure_encode, create_hkdf_info, okm_calc, edhoc_exporter,
}
use zephyr_uoscore_uedhoc.Prelude.{[], arith, refl, replicate, ◌++◌, ◌≡◌}
use zephyr_uoscore_uedhoc.Edhoc.Overflow.{ciphertext_gen-overflows}

abbrev large : Bytes
large = replicate 640 1

abbrev closing_keys : KeyIv
closing_keys = record { key = replicate 16 1; iv = replicate 13 1 }

large_generated : gen_plaintext coders ciphertext4 [] [] large ≡ ok large
unfolding gen_plaintext gen_id_and_mac gen_ead encode_byte_string append_s check_buffer_size read
    store
large_generated = refl

closing_keys_generated :
    keys_for coders ciphertext4 second_suite key_bytes key_bytes 640 ≡ ok closing_keys
unfolding keys_for key_length okm_calc create_hkdf_info hkdf_expand expand_loop check_buffer_size
    get_suite store read edhoc_exporter
closing_keys_generated = refl

closing_data_generated : gen_aad coders ciphertext4 key_bytes ≡ ok key_bytes
unfolding associated_data_encode cose_enc_structure_encode
closing_data_generated = refl

large_encrypted :
    aead_encrypt coders.crypto
      (of_bytes large)
      (of_bytes (replicate 16 1))
      (of_bytes (replicate 13 1))
      (of_bytes key_bytes)
      640
      16
    ≡ ok (large ++ replicate 16 0)
unfolding aead_encrypt read store
large_encrypted = refl

ciphertext_gen-overflows_example :
    ciphertext_gen coders ciphertext4 second_suite [] [] large key_bytes key_bytes ≡ fault
ciphertext_gen-overflows_example =
    ciphertext_gen-overflows coders ciphertext4 second_suite [] [] large key_bytes key_bytes large
      key_bytes (large ++ replicate 16 0) closing_keys refl tagged large_generated
      closing_keys_generated closing_data_generated large_encrypted (omega arith)
