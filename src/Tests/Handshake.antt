-- ===== src/Tests/Handshake.antt =====
-- The theorems on the two parties of an EDHOC run at concrete parties.
use zephyr_uoscore_uedhoc.Edhoc.Strings.{Reads, CxReads}
use zephyr_uoscore_uedhoc.Edhoc.Authentication.{mac, mac_length}
use zephyr_uoscore_uedhoc.Edhoc.Ciphertext.{key_length}
use zephyr_uoscore_uedhoc.Prelude.{
  ◌≡◌, refl, [], ◌∷◌, ◌++◌, replicate, List, ◌∙◌, ap, arith, true, false, Bool, if◌then◌else◌, none,
  some, some_inj, sym, ℕ,
}
use zephyr_uoscore_uedhoc.Memory.{
  Bytes, ok, err, Result, of_bytes, array_equals, error_message_sent, ◌>>=◌, append_s,
  array_equals_from, check_buffer_size, copy_s, read, store, credential_not_found,
}
use zephyr_uoscore_uedhoc.Memory.Laws.{array_equals_iff, bind_ok, ok_inj}
use zephyr_uoscore_uedhoc.Edhoc.Initiator.{
  edhoc_initiator_run, initiator_authenticate, initiator_exchange, initiator_last,
  initiator_respond, message_1_of, msg1_gen, msg2_parse, msg3_gen, cx_string, suites_message,
  InitiatorRun,
}
use zephyr_uoscore_uedhoc.Edhoc.Ciphertext.{
  ciphertext_decrypt, ciphertext_decrypt_split, ciphertext_encrypt, ciphertext_gen, gen_ead,
  gen_id_and_mac, gen_plaintext, keys_for, split_plaintext, text_length, xor_arrays,
}
use zephyr_uoscore_uedhoc.Edhoc.Authentication.{
  decode_byte_string, encode_byte_string, mac_context, signature_or_mac_generate,
  signature_or_mac_verify, signature_struct_gen,
}
use zephyr_uoscore_uedhoc.Edhoc.Responder.{
  edhoc_responder_run, msg1_parse, msg2_encode, msg2_gen, msg3_process, responder_exchange,
  responder_last, responder_respond, responder_suite, selected_suite_is_supported, suite_loop,
  ResponderRun,
}
use zephyr_uoscore_uedhoc.Edhoc.Keys.{
  associated_data_encode, cose_enc_structure_encode, cose_sig_structure_encode, create_hkdf_info,
  edhoc_exporter, okm_calc,
}
use zephyr_uoscore_uedhoc.Edhoc.Plaintext.{
  id_cred2kid, id_cred_x_encode, int_at, int_bytes, plaintext_split,
}
use zephyr_uoscore_uedhoc.Tests.Peers.{
  coders, initiator, initiator_cred, key_bytes, responder, responder_cred, read_m2, read_message_1,
  of_bytes-Reads, string_decodes,
}
use zephyr_uoscore_uedhoc.Edhoc.Transcript.{
  th2_calculate, th2_input_encode, th3_calculate, th3_input_encode, th4_calculate, th4_input_encode,
}
use zephyr_uoscore_uedhoc.Edhoc.Credentials.{
  get_local_cred, is_local, retrieve_cred, static_dh_key, use_cred, Retrieved, same_id,
}
use zephyr_uoscore_uedhoc.Edhoc.Messages.{Secrets, Transport, last_suite, runtime_context_init}
use zephyr_uoscore_uedhoc.Crypto.Wrapper.{
  aead_decrypt, aead_encrypt, expand_loop, hkdf_expand, hkdf_extract,
}
use zephyr_uoscore_uedhoc.Edhoc.Suites.{
  authentication_type_get, get_suite, Cx, c_x_bstr, c_x_int, x25519,
}
use zephyr_uoscore_uedhoc.Edhoc.Runs.{run_agreement}
use zephyr_uoscore_uedhoc.Edhoc.Strings.{CxReads}
use zephyr_uoscore_uedhoc.Edhoc.Coders.{M2, Message1, id_int, suites_int}
use zephyr_uoscore_uedhoc.Edhoc.Wrapper.{shared_secret_derive}
use zephyr_uoscore_uedhoc.Edhoc.Opening.{msg1_parse-gen}
use zephyr_uoscore_uedhoc.Exchange.Contexts.{sent}

abbrev first_message : Bytes
first_message = 3 ∷ 0 ∷ 1 ∷ key_bytes

abbrev second_message : Bytes
second_message = 2 ∷ (key_bytes ++ 7 ∷ replicate 8 0)

abbrev third_message : Bytes
third_message = 5 ∷ (replicate 8 1 ++ replicate 8 0)

abbrev secrets : Secrets
secrets = record { prk_4x3m = replicate 32 1; th4 = replicate 32 2 }

abbrev initiator_result : InitiatorRun
initiator_result = record { secrets = secrets; ead_2 = []; ead_4 = none }

abbrev responder_result : ResponderRun
responder_result = record { secrets = secrets; ead_1 = none; ead_3 = [] }

-- A network that takes one message only
abbrev expects : Bytes → Bytes → Result (Unit {0})
expects expected sent = array_equals (of_bytes sent) (of_bytes expected) >>= λ b.
    if b then ok tt else err error_message_sent

accepted : (b : Bool) → (if b then ok (tt {0}) else err error_message_sent) ≡ ok (tt {0}) → b ≡ true
accepted true e = refl
accepted false e = ground arith

expects_ok : (expected sent : Bytes) → expects expected sent ≡ ok tt → sent ≡ expected
expects_ok expected sent e =
    let b = bind_ok (array_equals (of_bytes sent) (of_bytes expected)) _ tt e in
    let yes : b.0 ≡ true = accepted b.0 b.2 in (array_equals_iff sent expected).0 (b.1 ∙ ap ok yes)

abbrev initiator_sends : List Bytes → Bytes → Result (Unit {0})
initiator_sends [] b = expects first_message b
initiator_sends (_ ∷ _) b = expects third_message b

abbrev responder_receives : List Bytes → Bytes
responder_receives [] = first_message
responder_receives (_ ∷ _) = third_message

abbrev initiator_side : Transport
initiator_side = record { tx = initiator_sends; rx = λ sent n. ok second_message }

abbrev responder_side : Transport
responder_side = record {
  tx = λ sent b. expects second_message b;
  rx = λ sent n. ok (responder_receives sent);
}

initiator_returns :
    edhoc_initiator_run coders initiator (responder_cred ∷ []) 16 16 initiator_side
    ≡ ok initiator_result
unfolding get_suite authentication_type_get create_hkdf_info okm_calc edhoc_exporter
    cose_enc_structure_encode cose_sig_structure_encode associated_data_encode th2_input_encode
    th3_input_encode th4_input_encode th2_calculate th3_calculate th4_calculate encode_byte_string
    decode_byte_string mac_context mac_length mac signature_struct_gen signature_or_mac_generate
    signature_or_mac_verify int_bytes int_at id_cred_x_encode plaintext_split id_cred2kid xor_arrays
    key_length keys_for ciphertext_encrypt ciphertext_decrypt split_plaintext text_length
    ciphertext_decrypt_split gen_id_and_mac gen_ead gen_plaintext ciphertext_gen static_dh_key
    use_cred get_local_cred is_local retrieve_cred last_suite message_1_of msg2_parse msg1_gen
    initiator_exchange initiator_authenticate initiator_respond msg3_gen initiator_last
    edhoc_initiator_run suite_loop selected_suite_is_supported edhoc_responder_run aead_encrypt
    aead_decrypt hkdf_extract expand_loop hkdf_expand read store check_buffer_size copy_s append_s
    array_equals_from array_equals
initiator_returns = refl

responder_returns :
    edhoc_responder_run coders responder (initiator_cred ∷ []) 16 16 responder_side
    ≡ ok responder_result
unfolding get_suite authentication_type_get create_hkdf_info okm_calc edhoc_exporter
    cose_enc_structure_encode cose_sig_structure_encode associated_data_encode th2_input_encode
    th3_input_encode th4_input_encode th2_calculate th3_calculate th4_calculate encode_byte_string
    decode_byte_string mac_context mac_length mac signature_struct_gen signature_or_mac_generate
    signature_or_mac_verify int_bytes int_at id_cred_x_encode plaintext_split id_cred2kid xor_arrays
    key_length keys_for ciphertext_encrypt ciphertext_decrypt split_plaintext text_length
    ciphertext_decrypt_split gen_id_and_mac gen_ead gen_plaintext ciphertext_gen static_dh_key
    use_cred get_local_cred is_local retrieve_cred last_suite message_1_of msg2_parse msg1_gen
    initiator_exchange initiator_authenticate initiator_respond msg3_gen initiator_last
    edhoc_initiator_run suite_loop selected_suite_is_supported msg1_parse msg2_encode
    responder_suite responder_exchange responder_respond msg2_gen msg3_process responder_last
    edhoc_responder_run aead_encrypt aead_decrypt hkdf_extract expand_loop hkdf_expand read store
    check_buffer_size copy_s append_s array_equals_from array_equals
responder_returns = refl

-- What the concrete coders and entries do
first_decodes :
    (out : Bytes) (n : ℕ)
    → coders.cbor_encode_message_1 n (message_1_of initiator) ≡ some out
    → (d : Message1) × (coders.cbor_decode_message_1 out ≡ some d)
      × (d.method ≡ 3)
      × (d.suites_i ≡ suites_message (0 ∷ []))
      × Reads d.g_x key_bytes
      × CxReads d.c_i (c_x_int 1)
      × (d.ead_1 ≡ (message_1_of initiator).ead_1)
unfolding message_1_of
first_decodes out n e = (
  record {
    method = 3;
    suites_i = suites_int 0;
    g_x = of_bytes key_bytes;
    c_i = id_int 1;
    ead_1 = none;
  },
  ap read_message_1 (sym ((some_inj).0 e)),
  refl,
  refl,
  of_bytes-Reads key_bytes,
  refl,
  refl,
)

second_decodes :
    (n : ℕ) (b out : Bytes) (c : Cx)
    → coders.cbor_encode_m2 n (record { g_y_ciphertext_2 = of_bytes b; c_r = cx_string c })
      ≡ some out
    → (d : M2) × (coders.cbor_decode_m2 out ≡ some d) × Reads d.g_y_ciphertext_2 b × CxReads d.c_r c
second_decodes n b out (c_x_int k) e = (
  record { g_y_ciphertext_2 = of_bytes b; c_r = id_int k },
  ap read_m2 (sym ((some_inj).0 e)),
  of_bytes-Reads b,
  refl,
)
second_decodes n b out (c_x_bstr k) e = ground arith

-- The search in one entry gives that entry's key.
one_entry :
    (found : Bool) (entry r : Retrieved)
    → (if found then ok entry else err credential_not_found) ≡ ok r
    → entry ≡ r
one_entry true entry r e = ok_inj e
one_entry false entry r e = ground arith

retrieved_responder :
    (id : Bytes) (r : Retrieved)
    → retrieve_cred coders true (responder_cred ∷ []) id ≡ ok r
    → r.g ≡ key_bytes
unfolding retrieve_cred is_local get_local_cred use_cred static_dh_key copy_s check_buffer_size read
retrieved_responder [] r e = ground arith
retrieved_responder (k ∷ id) r e =
    let f = bind_ok (same_id (6 ∷ []) (k ∷ id)) _ r e in
    sym (ap (λ (z : Retrieved). z.g) (one_entry f.0 _ r f.2))

retrieved_initiator :
    (id : Bytes) (r : Retrieved)
    → retrieve_cred coders true (initiator_cred ∷ []) id ≡ ok r
    → r.g ≡ key_bytes
unfolding retrieve_cred is_local get_local_cred use_cred static_dh_key copy_s check_buffer_size read
retrieved_initiator [] r e = ground arith
retrieved_initiator (k ∷ id) r e =
    let f = bind_ok (same_id (5 ∷ []) (k ∷ id)) _ r e in
    sym (ap (λ (z : Retrieved). z.g) (one_entry f.0 _ r f.2))

run_agreement_example : initiator_result.secrets ≡ responder_result.secrets
run_agreement_example =
    run_agreement coders initiator responder (responder_cred ∷ []) (initiator_cred ∷ []) 16 16 16 16
      initiator_side responder_side (record { secrets = secrets; ead_2 = []; ead_4 = none })
      responder_result (λ out n e. let d = first_decodes out n e in (d.0, d.1, d.2, d.3, d.4))
      second_decodes string_decodes (omega arith, tt) refl refl
      (λ id r e. ap (shared_secret_derive coders x25519 key_bytes) (retrieved_responder id r e))
      (λ id r e.
        ap (shared_secret_derive coders x25519 key_bytes) (sym (retrieved_initiator id r e)))
      (λ m e. ap ok (sym (expects_ok first_message m e)))
      (λ m m' e. ap ok (sym (expects_ok second_message m' e)))
      (λ m m' m'' e. ap ok (sym (expects_ok third_message m'' e))) initiator_returns
      responder_returns

msg1_parse-gen_example :
    msg1_parse coders first_message 16
    ≡ ok (record { method = 3; suites_i = 0 ∷ []; g_x = key_bytes; c_i = c_x_int 1; ead_1 = none })
unfolding msg1_gen message_1_of
msg1_parse-gen_example =
    msg1_parse-gen coders initiator runtime_context_init
      (record runtime_context_init { msg1 = first_message }) 16 first_decodes refl (omega arith, tt)
      (omega arith) (omega arith) refl
