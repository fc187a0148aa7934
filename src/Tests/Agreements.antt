-- ===== src/Tests/Agreements.antt =====
-- The theorems on suites, local credentials and authenticators of EDHOC at concrete arguments.
use zephyr_uoscore_uedhoc.Prelude.{
  ◌≡◌, ◌≢◌, ◌↔◌, ◌≤◌, ◌<◌, refl, [], ◌∷◌, ◌++◌, replicate, arith, true, false, none,
}
use zephyr_uoscore_uedhoc.Memory.{Bytes, ok, err, append_s, check_buffer_size, credential_not_found}
use zephyr_uoscore_uedhoc.Edhoc.Authentication.{
  mac, mac_length, Statement, encode_byte_string, mac_context, signature_or_mac_generate,
  signature_or_mac_verify, signature_struct_gen,
}
use zephyr_uoscore_uedhoc.Edhoc.Responder.{selected_suite_is_supported, suite_loop}
use zephyr_uoscore_uedhoc.Edhoc.Keys.{cose_sig_structure_encode, create_hkdf_info, okm_calc}
use zephyr_uoscore_uedhoc.Edhoc.Limits.{get_suite-fits}
use zephyr_uoscore_uedhoc.Edhoc.Initiator.{statement_2}
use zephyr_uoscore_uedhoc.Edhoc.Suites.{
  get_aead_iv_len, get_aead_key_len, get_aead_mac_len, get_ecdh_pk_len, get_hash_len,
  get_signature_len, get_suite,
}
use zephyr_uoscore_uedhoc.Edhoc.Credentials.{get_local_cred, use_cred}
use zephyr_uoscore_uedhoc.Edhoc.Verify.{
  signature_or_mac_verify-generate, signature_or_mac_verify-prefix,
}
use zephyr_uoscore_uedhoc.Crypto.Wrapper.{expand_loop, hkdf_expand}
use zephyr_uoscore_uedhoc.Edhoc.Lookup.{get_local_cred-first}
use zephyr_uoscore_uedhoc.Tests.Peers.{coders, initiator_cred, key_bytes, responder_cred}
use zephyr_uoscore_uedhoc.Edhoc.Support.{selected_suite_is_supported-member, suite_loop_endless}
use zephyr_uoscore_uedhoc.Tests.Peers.{second_suite}

get_suite-fits_example :
    (1 < 4)
    × (second_suite.suite_label ≡ 1)
    × (get_aead_key_len second_suite.edhoc_aead ≡ 16)
    × (get_aead_iv_len second_suite.edhoc_aead ≡ 13)
    × (get_hash_len second_suite.edhoc_hash ≡ 32)
    × (get_aead_mac_len second_suite.edhoc_aead ≤ 16)
    × (second_suite.edhoc_mac_len_static_dh ≡ get_aead_mac_len second_suite.edhoc_aead)
    × (get_signature_len second_suite.edhoc_sign ≡ 64)
    × (get_ecdh_pk_len second_suite.edhoc_ecdh ≤ 33)
unfolding get_suite
get_suite-fits_example = get_suite-fits 1 second_suite refl

selected_suite_is_supported-member_example : selected_suite_is_supported 3 (1 ∷ 3 ∷ []) ≡ ok true
selected_suite_is_supported-member_example =
    selected_suite_is_supported-member 3 (1 ∷ 3 ∷ []) (omega arith)

suite_loop_endless_example : suite_loop 1000 0 7 (replicate 256 1) ≡ none
suite_loop_endless_example =
    suite_loop_endless 1000 0 7 (replicate 256 1) (omega arith) (omega arith) refl

other_id : initiator_cred.id_cred ≢ responder_cred.id_cred
other_id = λ e. ground arith

get_local_cred-first_example :
    (get_local_cred true (initiator_cred ∷ responder_cred ∷ []) (6 ∷ [])
      ≡ use_cred true responder_cred)
    × (get_local_cred true (initiator_cred ∷ []) (6 ∷ []) ≡ err credential_not_found)
get_local_cred-first_example =
    get_local_cred-first true (initiator_cred ∷ []) [] responder_cred (other_id, tt)

abbrev statement : Statement
statement = statement_2 key_bytes key_bytes (6 ∷ []) (8 ∷ []) []

mac_of_statement : mac coders statement true second_suite ≡ ok (replicate 16 1)
unfolding mac mac_context check_buffer_size append_s okm_calc create_hkdf_info hkdf_expand
    mac_length expand_loop
mac_of_statement = refl

signature_or_mac_verify-prefix_example :
    (signature_or_mac_verify coders statement true second_suite [] (1 ∷ 1 ∷ []) ≡ ok tt)
    ↔ ((rest : Bytes) × ((1 ∷ 1 ∷ []) ++ rest ≡ replicate 16 1))
signature_or_mac_verify-prefix_example =
    signature_or_mac_verify-prefix coders statement second_suite [] (replicate 16 1) (1 ∷ 1 ∷ [])
      refl mac_of_statement

signature_of_statement :
    signature_or_mac_generate coders statement false second_suite key_bytes key_bytes
    ≡ ok (replicate 64 3)
unfolding signature_or_mac_generate mac mac_context check_buffer_size append_s okm_calc
    create_hkdf_info hkdf_expand mac_length expand_loop signature_struct_gen encode_byte_string
    cose_sig_structure_encode
signature_of_statement = refl

signature_or_mac_verify-generate_example :
    signature_or_mac_verify coders statement false second_suite key_bytes (replicate 64 3) ≡ ok tt
signature_or_mac_verify-generate_example =
    signature_or_mac_verify-generate coders statement false second_suite key_bytes key_bytes
      (replicate 64 3) refl (λ m. refl) (λ m. refl) signature_of_statement
