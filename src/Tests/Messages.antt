-- ===== src/Tests/Messages.antt =====
-- The theorems on single messages of EDHOC at concrete arguments.
use zephyr_uoscore_uedhoc.Edhoc.Messages.{runtime_context_init}
use zephyr_uoscore_uedhoc.Prelude.{
  ◌≡◌, refl, [], ◌∷◌, ◌++◌, replicate, arith, true, false, take, none,
}
use zephyr_uoscore_uedhoc.Memory.{
  Bytes, ok, err, append_s, array_equals_from, check_buffer_size, copy_s, error_message_sent, read,
  store,
}
use zephyr_uoscore_uedhoc.Edhoc.Authentication.{
  mac, mac_length, Statement, decode_byte_string, encode_byte_string, mac_context,
  signature_or_mac_generate, signature_or_mac_verify, signature_struct_gen,
}
use zephyr_uoscore_uedhoc.Edhoc.Ciphertext.{
  key_length, ciphertext_decrypt, ciphertext_decrypt_split, ciphertext_encrypt, ciphertext_gen,
  gen_ead, gen_id_and_mac, gen_plaintext, keys_for, split_plaintext, text_length, xor_arrays,
}
use zephyr_uoscore_uedhoc.Edhoc.Responder.{
  ParsedMsg1, ProcessedMsg3, edhoc_responder_run, msg1_parse, msg2_gen, msg3_process,
  responder_last, responder_respond, msg4_gen,
}
use zephyr_uoscore_uedhoc.Edhoc.Keys.{
  associated_data_encode, cose_enc_structure_encode, cose_sig_structure_encode, create_hkdf_info,
  edhoc_exporter, okm_calc,
}
use zephyr_uoscore_uedhoc.Edhoc.Plaintext.{
  id_cred2kid, id_cred_x_encode, int_at, int_bytes, plaintext_split,
}
use zephyr_uoscore_uedhoc.Edhoc.Initiator.{msg4_process}
use zephyr_uoscore_uedhoc.Edhoc.Suites.{c_x_int}
use zephyr_uoscore_uedhoc.Edhoc.Credentials.{
  Retrieved, ca_pk_get, get_local_cred, is_local, retrieve_cred, use_cred,
}
use zephyr_uoscore_uedhoc.Edhoc.Transcript.{
  th2_calculate, th3_calculate, th4_calculate, th4_input_encode,
}
use zephyr_uoscore_uedhoc.Edhoc.Guards.{ca_pk_get-begins, msg2_gen-unsupported, msg3_process-signed}
use zephyr_uoscore_uedhoc.Crypto.Wrapper.{
  aead_decrypt, aead_encrypt, expand_loop, hkdf_expand, hkdf_extract,
}
use zephyr_uoscore_uedhoc.Edhoc.Messages.{RuntimeContext, last_suite}
use zephyr_uoscore_uedhoc.Tests.Peers.{coders, initiator_cred, key_bytes, responder, string_decodes}
use zephyr_uoscore_uedhoc.Edhoc.Closing.{msg4_process-gen}
use zephyr_uoscore_uedhoc.Tests.Peers.{second_suite}
use zephyr_uoscore_uedhoc.Tests.Ciphertexts.{tagged}

ca_pk_get-begins_example : ca_pk_get (initiator_cred ∷ []) (1 ∷ 2 ∷ []) ≡ ok []
ca_pk_get-begins_example = ca_pk_get-begins initiator_cred [] (1 ∷ 2 ∷ [])

-- A message 1 that selects suite 3
abbrev third_suite : ParsedMsg1
third_suite = record {
  method = 3;
  suites_i = 3 ∷ [];
  g_x = key_bytes;
  c_i = c_x_int 1;
  ead_1 = none;
}

abbrev started : RuntimeContext
started = record runtime_context_init { msg1 = 3 ∷ 3 ∷ 1 ∷ key_bytes }

third_suite_parsed : msg1_parse coders (3 ∷ 3 ∷ 1 ∷ key_bytes) 16 ≡ ok third_suite
unfolding msg1_parse copy_s
third_suite_parsed = refl

msg2_gen-unsupported_example : msg2_gen coders responder started 16 ≡ err error_message_sent
unfolding last_suite
msg2_gen-unsupported_example =
    msg2_gen-unsupported coders responder started 16 3 third_suite (omega arith) third_suite_parsed
      refl refl

-- A run in which the initiator signs
abbrev signing : RuntimeContext
signing = record runtime_context_init {
  msg3 = 5 ∷ (replicate 64 3 ++ replicate 16 0);
  suite = second_suite;
  th3 = key_bytes;
  prk_3e2m = key_bytes;
}

abbrev signed : ProcessedMsg3
signed = record { secrets = record { prk_4x3m = key_bytes; th4 = replicate 32 2 }; ead_3 = [] }

signing_processed : msg3_process coders responder signing (initiator_cred ∷ []) 16 ≡ ok signed
unfolding create_hkdf_info okm_calc edhoc_exporter cose_enc_structure_encode
    cose_sig_structure_encode associated_data_encode th4_input_encode th2_calculate th3_calculate
    th4_calculate encode_byte_string decode_byte_string mac_context mac_length mac
    signature_struct_gen signature_or_mac_generate signature_or_mac_verify int_bytes int_at
    id_cred_x_encode plaintext_split id_cred2kid xor_arrays key_length keys_for ciphertext_encrypt
    ciphertext_decrypt split_plaintext text_length ciphertext_decrypt_split gen_id_and_mac use_cred
    get_local_cred is_local retrieve_cred responder_respond msg2_gen msg3_process responder_last
    edhoc_responder_run aead_encrypt aead_decrypt hkdf_extract expand_loop hkdf_expand read store
    check_buffer_size copy_s append_s array_equals_from
signing_processed = refl

msg3_process-signed_example :
    (s : Statement) × (r : Retrieved) × (mac_bytes : Bytes) × (structure : Bytes) × (sgn : Bytes)
    × (retrieve_cred coders false (initiator_cred ∷ []) s.id_cred ≡ ok r)
    × (s.th ≡ key_bytes)
    × (s.cred ≡ r.cred)
    × (mac coders s false second_suite ≡ ok mac_bytes)
    × (signature_struct_gen coders s mac_bytes ≡ ok structure)
    × (coders.edsign_verify (take 64 sgn) (take 32 r.pk) structure ≡ true)
msg3_process-signed_example =
    msg3_process-signed coders responder signing (initiator_cred ∷ []) 16 signed refl refl
      signing_processed

abbrev closed : RuntimeContext
closed = record signing { msg4 = replicate 16 0 }

msg4_written : msg4_gen coders responder signing signed.secrets ≡ ok closed
unfolding create_hkdf_info okm_calc edhoc_exporter cose_enc_structure_encode associated_data_encode
    encode_byte_string key_length keys_for ciphertext_encrypt gen_id_and_mac gen_ead gen_plaintext
    ciphertext_gen aead_encrypt expand_loop hkdf_expand append_s array_equals_from msg4_gen
msg4_written = refl

msg4_process-gen_example : msg4_process coders closed 16 signed.secrets ≡ ok []
msg4_process-gen_example =
    msg4_process-gen coders responder signing closed closed signed.secrets 16 tagged string_decodes
      refl refl refl msg4_written
