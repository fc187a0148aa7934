-- ===== src/Tests/Peers.antt =====
-- Two EDHOC parties with concrete coders and keys, for the examples: the coders write the fields
-- one behind the other, and the cryptography is constant.
use zephyr_uoscore_uedhoc.Edhoc.Strings.{Reads}
use zephyr_uoscore_uedhoc.Prelude.{
  ℕ, true, false, [], ◌∷◌, ◌++◌, ◌-◌, length, take, replicate, Option, some, none, ap, append-nil,
  some_inj, sym, ◌≡◌,
}
use zephyr_uoscore_uedhoc.Memory.{Bytes, ByteArray, of_bytes}
use zephyr_uoscore_uedhoc.Crypto.{External}
use zephyr_uoscore_uedhoc.Edhoc.Credentials.{OtherPartyCred}
use zephyr_uoscore_uedhoc.Edhoc.Messages.{InitiatorContext, ResponderContext}
use zephyr_uoscore_uedhoc.Edhoc.Coders.{
  CxString, EdhocExternal, IdCredMap, M2, Message1, PlaintextX, SuitesI, id_bstr, id_int,
  id_kid_int, suites_int,
}
use zephyr_uoscore_uedhoc.Edhoc.Suites.{c_x_int, Suite, aes_ccm_16_128_128, eddsa, suite_of, x25519}
use zephyr_uoscore_uedhoc.Edhoc.Plaintext.{no_entries}

abbrev pub primitives : External
primitives = record {
  cbor_encode_aad_array = λ n a. some [];
  cbor_encode_oscore_info = λ n a. some [];
  cbor_encode_oscore_enc_structure = λ n a. some [];
  tc_ccm_generation_encryption = λ k n t a m. some (m ++ replicate t 0);
  tc_ccm_decryption_verification = λ k n t a m. some (take (length m - t) m);
  tc_hmac = λ k m. some (replicate 32 1);
}

abbrev pub write_message_1 : ℕ → ByteArray → SuitesI → CxString → Option Bytes
write_message_1 method g_x (suites_int s) (id_int c) = some (method ∷ s ∷ c ∷ g_x.ptr)
write_message_1 method g_x _ _ = none

abbrev pub read_message_1 : Bytes → Option Message1
read_message_1 (method ∷ s ∷ c ∷ g_x) = some (record {
  method = method;
  suites_i = suites_int s;
  g_x = of_bytes g_x;
  c_i = id_int c;
  ead_1 = none;
})
read_message_1 _ = none

abbrev pub write_m2 : ByteArray → CxString → Option Bytes
write_m2 g (id_int c) = some (c ∷ g.ptr)
write_m2 g (id_bstr c) = none

abbrev pub read_m2 : Bytes → Option M2
read_m2 [] = none
read_m2 (c ∷ g) = some (record { g_y_ciphertext_2 = of_bytes g; c_r = id_int c })

abbrev pub read_plaintext : Bytes → Option PlaintextX
read_plaintext [] = none
read_plaintext (k ∷ sgn) =
    some (record { id_cred_x = id_kid_int k; sgn_or_mac_x = of_bytes sgn; ad_x = none })

abbrev pub write_id_cred : Option ℕ → Option Bytes
write_id_cred none = none
write_id_cred (some k) = some (k ∷ [])

abbrev pub read_id_cred : Bytes → Option IdCredMap
read_id_cred [] = none
read_id_cred (k ∷ _) = some (record no_entries { kid = some k })

abbrev pub coders : EdhocExternal
coders = record {
  crypto = primitives;
  cbor_encode_message_1 = λ n m. write_message_1 m.method m.g_x m.suites_i m.c_i;
  cbor_decode_message_1 = read_message_1;
  cbor_encode_m2 = λ n m. write_m2 m.g_y_ciphertext_2 m.c_r;
  cbor_decode_m2 = read_m2;
  cbor_decode_plaintext = read_plaintext;
  cbor_encode_id_cred_x_map = λ n m. write_id_cred m.kid;
  cbor_decode_id_cred_x_map = read_id_cred;
  cbor_encode_bstr_type_b_str = λ n b. some b;
  cbor_decode_bstr_type_b_str = λ b. some (of_bytes b);
  cbor_encode_int_type_i = λ n k. some (k ∷ []);
  cbor_encode_info = λ n i. some i.label;
  cbor_encode_th2 = λ n t. some t.g_y;
  cbor_encode_th3 = λ n t. some (t.0 ++ t.1);
  cbor_encode_th4 = λ n t. some (t.0 ++ t.1);
  cbor_encode_edhoc_enc_structure = λ n t. some t.2;
  cbor_encode_sig_structure = λ n s. some s.payload;
  cbor_decode_cert = λ b. none;
  tc_sha256 = λ b. some (replicate 32 2);
  edsign_sign = λ pk sk m. replicate 64 3;
  edsign_verify = λ sgn pk m. true;
  x25519_shared = λ e p. replicate 32 4;
  compact_x25519_keygen = λ s. (s, s);
}

abbrev pub key_bytes : Bytes
key_bytes = replicate 32 9

abbrev pub initiator : InitiatorContext
initiator = record {
  msg4 = false;
  c_i = c_x_int 1;
  method = 3;
  suites_i = 0 ∷ [];
  ead_1 = [];
  ead_3 = [];
  id_cred_i = 5 ∷ [];
  cred_i = 7 ∷ [];
  g_x = key_bytes;
  x = key_bytes;
  g_i = key_bytes;
  i = key_bytes;
  sk_i = key_bytes;
  pk_i = key_bytes;
}

abbrev pub responder : ResponderContext
responder = record {
  msg4 = false;
  c_r = c_x_int 2;
  suites_r = 1 ∷ 0 ∷ [];
  g_y = key_bytes;
  y = key_bytes;
  g_r = key_bytes;
  r = key_bytes;
  ead_2 = [];
  ead_4 = [];
  id_cred_r = 6 ∷ [];
  cred_r = 8 ∷ [];
  sk_r = key_bytes;
  pk_r = key_bytes;
}

-- The entries that the two parties have of each other
abbrev pub initiator_cred : OtherPartyCred
initiator_cred = record {
  id_cred = 5 ∷ [];
  cred = 7 ∷ [];
  pk = key_bytes;
  g = key_bytes;
  ca = [];
  ca_pk = [];
}

abbrev pub responder_cred : OtherPartyCred
responder_cred = record {
  id_cred = 6 ∷ [];
  cred = 8 ∷ [];
  pk = key_bytes;
  g = key_bytes;
  ca = [];
  ca_pk = [];
}

-- The strings that the coders decode
pub of_bytes-Reads : (b : Bytes) → Reads (of_bytes b) b
of_bytes-Reads b = ([], ap (λ p. record { len = length b; ptr = p }) (sym (append-nil b)))

pub string_decodes :
    (n : ℕ) (b out : Bytes)
    → coders.cbor_encode_bstr_type_b_str n b ≡ some out
    → (s : ByteArray) × (coders.cbor_decode_bstr_type_b_str out ≡ some s) × Reads s b
string_decodes n b out e =
    (of_bytes b, ap (λ x. some (of_bytes x)) (sym ((some_inj).0 e)), of_bytes-Reads b)

abbrev pub second_suite : Suite
second_suite = suite_of 1 aes_ccm_16_128_128 16 x25519 eddsa
