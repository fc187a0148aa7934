-- ===== src/Tests/Endpoints.antt =====
-- The theorems on `coap2oscore` and `oscore2coap` at concrete packets.
use zephyr_uoscore_uedhoc.Coap.Packet.{
  Output, buf2coap, coap2buf, header_bytes, max_options_len, parse_options, read_header,
  read_options, read_payload, read_token, scan_options, write_payload, write_token,
}
use zephyr_uoscore_uedhoc.Coap.Encode.{
  field_bytes, field_nibble, option_header, options_bytes, options_into_byte_string,
}
use zephyr_uoscore_uedhoc.Memory.{
  ByteArray, Bytes, append_s, check_buffer_size, deref, memcpy_s, of_bytes, ok, read, store,
}
use zephyr_uoscore_uedhoc.Coap.Decode.{buf2options, options_loop, parse_option, read_field}
use zephyr_uoscore_uedhoc.OscoreOption.{
  CompressedOption, clear, copy_at, get_oscore_opt_val_len, or_at, oscore_option_generate, put_kid,
  put_kid_context, put_piv, OscoreOption,
}
use zephyr_uoscore_uedhoc.Protect.Parts.{
  oscore_opt_pos, oscore_pkg_generate, place_options, place_rest, plaintext_payload,
  plaintext_setup,
}
use zephyr_uoscore_uedhoc.Prelude.{
  [], length, refl, replicate, some, take, ℕ, ◌++◌, ◌-◌, ◌∷◌, ◌≡◌, arith, u32, ◌+◌,
}
use zephyr_uoscore_uedhoc.Context.Nonce.{create_nonce, left_pad, xor_bytes}
use zephyr_uoscore_uedhoc.Options.Encoding.{
  encode_from, encode_options, encoded_len_from, encoded_option_len,
}
use zephyr_uoscore_uedhoc.Unprotect.Requests.{oscore2coap_replay, with_window}
use zephyr_uoscore_uedhoc.Protect.Run.{
  coap2oscore, next_seq_num, oscore_option_for, protect_packet, update_request_piv,
}
use zephyr_uoscore_uedhoc.Context.Piv.{little_endian, piv_loop, sender_seq_num2piv}
use zephyr_uoscore_uedhoc.Protect.Extract.{
  counted_extra, e_u_options_extract, extract_from, extract_option,
}
use zephyr_uoscore_uedhoc.Options.{is_class_e, option_belongs_to_class}
use zephyr_uoscore_uedhoc.Context.Cose.{
  create_aad, create_enc_structure, oscore_cose_encrypt, encrypt0_encoding_overhead,
}
use zephyr_uoscore_uedhoc.Protect.Sequence.{SameKeys, coap2oscore-SameKeys}
use zephyr_uoscore_uedhoc.Crypto.{External}
use zephyr_uoscore_uedhoc.Context.{Context}
use zephyr_uoscore_uedhoc.Protect.Steps.{
  make_plaintext, plaintext_encrypt, plaintext_length, request_option,
}
use zephyr_uoscore_uedhoc.Unprotect.Run.{Locals, oscore2coap}
use zephyr_uoscore_uedhoc.Context.Update.{context_update, update_nonce_aad}
use zephyr_uoscore_uedhoc.Coap.{CoapPacket}
use zephyr_uoscore_uedhoc.Context.NonceReuse.{nonce_of}
use zephyr_uoscore_uedhoc.Crypto.Wrapper.{aead_encrypt, hkdf_sha_256}
use zephyr_uoscore_uedhoc.Crypto.Expand.{hkdf_sha_256-hmac}
use zephyr_uoscore_uedhoc.Protect.Encrypted.{Seals, coap2oscore-nonce_of}

-- Encoders that write nothing, and a cipher that appends eight zero bytes.
abbrev pub external : External
external = record {
  cbor_encode_aad_array = λ n a. some [];
  cbor_encode_oscore_info = λ n a. some [];
  cbor_encode_oscore_enc_structure = λ n a. some [];
  tc_ccm_generation_encryption = λ k n t a m. some (m ++ replicate 8 0);
  tc_ccm_decryption_verification = λ k n t a m. some (take (length m - 8) m);
  tc_hmac = λ k m. some (replicate 32 1);
}

abbrev pub zeros : ℕ → ByteArray
zeros n = record { len = n; ptr = replicate n 0 }

-- The sender has the ID 1, the recipient the ID 2.
abbrev pub context : Context
context = record {
  rrc = record {
    nonce = zeros 13;
    aad = record { len = 10; ptr = replicate 30 0 };
    piv = zeros 5;
    kid_context = record { len = 0; ptr = replicate 8 0 };
    kid = of_bytes (1 ∷ []);
  };
  cc = record {
    aead_alg = 10;
    kdf = 0;
    master_secret = zeros 16;
    master_salt = zeros 8;
    id_context = zeros 0;
    common_iv = zeros 13;
  };
  sc = record { sender_id = of_bytes (1 ∷ []); sender_key = zeros 16; sender_seq_num = 20 };
  rc = record {
    recipient_id = of_bytes (2 ∷ []);
    recipient_key = zeros 16;
    replay_window = replicate 32 0;
  };
}

abbrev pub no_packet : CoapPacket
no_packet = record {
  header = record { ver = 0; type = 0; tkl = 0; code = 0; mid = 0 };
  token = [];
  options = [];
  payload_len = 0;
  payload = [];
}

-- A GET with the Uri-Path "a".
abbrev get : ByteArray
get = of_bytes (0x40 ∷ 1 ∷ 0 ∷ 7 ∷ 0xB1 ∷ b'a' ∷ [])

abbrev pub get_parsed : CoapPacket
get_parsed = record {
  header = record { ver = 1; type = 0; tkl = 0; code = 1; mid = 7 };
  token = [];
  options = record { delta = 11; len = 1; value = b'a' ∷ []; option_number = 11 } ∷ [];
  payload_len = 0;
  payload = [];
}

buf2coap-get : buf2coap get no_packet ≡ ok get_parsed
unfolding buf2coap read_header deref read_token read_options parse_options scan_options buf2options
    options_loop parse_option read_field read_payload
buf2coap-get = refl

abbrev pub option_buffer : Bytes
option_buffer = replicate 22 0

coap2oscore-SameKeys_example :
    SameKeys context (coap2oscore external no_packet option_buffer get 64 context).1
    × ((coap2oscore external no_packet option_buffer get 64 context).1.sc.sender_seq_num ≡ 21)
unfolding buf2coap read_header deref read_token read_options parse_options scan_options buf2options
    options_loop parse_option read_field read_payload coap2oscore protect_packet oscore_option_for
    update_request_piv next_seq_num context_update update_nonce_aad create_nonce left_pad xor_bytes
    read create_aad encoded_option_len encoded_len_from option_belongs_to_class encode_options
    encode_from check_buffer_size sender_seq_num2piv piv_loop memcpy_s little_endian request_option
    get_oscore_opt_val_len oscore_option_generate clear put_piv put_kid_context put_kid or_at
    copy_at make_plaintext plaintext_length plaintext_setup plaintext_payload e_u_options_extract
    extract_from extract_option is_class_e counted_extra max_options_len options_into_byte_string
    options_bytes option_header field_nibble field_bytes store append_s plaintext_encrypt
    oscore_cose_encrypt create_enc_structure aead_encrypt oscore_pkg_generate oscore_opt_pos
    place_options place_rest coap2buf header_bytes write_token write_payload
coap2oscore-SameKeys_example = coap2oscore-SameKeys external no_packet option_buffer get 64 context

-- The protected packet: a POST with the OSCORE option 09 14 01, and the code, the option and
-- the tag as its payload.
abbrev protected : Output
protected = record {
  bytes = 0x40 ∷ 2 ∷ 0 ∷ 7 ∷ 0x93 ∷ 9 ∷ 20 ∷ 1 ∷ 0xFF ∷ 1 ∷ 0xB1 ∷ b'a' ∷ replicate 8 0;
  len = 20;
}

coap2oscore-nonce_of_example :
    (let later = (coap2oscore external no_packet option_buffer get 64 context).1 in
      let split = e_u_options_extract get_parsed.options in
      (nonce aad : ByteArray) × (plaintext ciphertext : Bytes) × (o : OscoreOption)
      × (q : CoapPacket) × (nonce_of 20 context.rrc.piv context.rrc.kid context.cc.common_iv
            context.rrc.nonce
          ≡ ok nonce)
      × (make_plaintext get_parsed split ≡ ok plaintext)
      × (create_enc_structure external later.rrc.aad
            (u32 (later.rrc.aad.len + encrypt0_encoding_overhead))
          ≡ ok aad)
      × Seals external context.sc.sender_key nonce aad plaintext ciphertext
          (plaintext_length get_parsed split.e_options_len)
      × (oscore_pkg_generate get_parsed split.u_options ciphertext o ≡ ok q)
      × (coap2buf q 64 ≡ ok protected))
unfolding buf2coap read_header deref read_token read_options parse_options scan_options buf2options
    options_loop parse_option read_field read_payload coap2oscore protect_packet oscore_option_for
    update_request_piv next_seq_num context_update update_nonce_aad create_nonce left_pad xor_bytes
    read create_aad encoded_option_len encoded_len_from option_belongs_to_class encode_options
    encode_from check_buffer_size sender_seq_num2piv piv_loop memcpy_s little_endian request_option
    get_oscore_opt_val_len oscore_option_generate clear put_piv put_kid_context put_kid or_at
    copy_at make_plaintext plaintext_length plaintext_setup plaintext_payload e_u_options_extract
    extract_from extract_option is_class_e counted_extra max_options_len options_into_byte_string
    options_bytes option_header field_nibble field_bytes store append_s plaintext_encrypt
    oscore_cose_encrypt create_enc_structure aead_encrypt oscore_pkg_generate oscore_opt_pos
    place_options place_rest coap2buf header_bytes write_token write_payload
coap2oscore-nonce_of_example =
    coap2oscore-nonce_of external no_packet get_parsed option_buffer get 64 context
      ((coap2oscore external no_packet option_buffer get 64 context).1) protected buf2coap-get refl
      refl refl

-- A request whose option has the KID 2 and no PIV.
abbrev no_piv : ByteArray
no_piv = of_bytes (0x40 ∷ 2 ∷ 0 ∷ 7 ∷ 0x92 ∷ 8 ∷ 2 ∷ [])

abbrev pub no_piv_option : CompressedOption
no_piv_option = record {
  h = 0;
  k = 1;
  n = 0;
  piv = record { len = 0; ptr = [] };
  kid_context = record { len = 0; ptr = [] };
  kid = of_bytes (2 ∷ []);
}

abbrev pub locals : Locals
locals = record {
  oscore_packet = no_packet;
  oscore_option = no_piv_option;
  plaintext_bytes = replicate 128 0;
}

oscore2coap_replay_example :
    (oscore2coap external locals no_piv 64 (with_window (replicate 32 9) context)).0
    ≡ (oscore2coap external locals no_piv 64 context).0
oscore2coap_replay_example = oscore2coap_replay external locals no_piv 64 context (replicate 32 9)

hkdf_sha_256-hmac_example :
    hkdf_sha_256 external (of_bytes (1 ∷ 2 ∷ [])) (of_bytes []) (of_bytes (3 ∷ [])) 16
    ≡ ok (replicate 16 1)
hkdf_sha_256-hmac_example =
    hkdf_sha_256-hmac external (1 ∷ 2 ∷ []) [] (3 ∷ []) (replicate 32 1) (replicate 32 1) 16
      (omega arith) (omega arith) refl refl refl
