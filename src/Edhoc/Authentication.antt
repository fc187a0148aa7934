-- ===== src/Edhoc/Authentication.antt =====
-- The MACs and signatures of messages 2 and 3: src/edhoc/signature_or_mac_msg.c.
use zephyr_uoscore_uedhoc.Prelude.{ℕ, ◌+◌, Bool, if◌then◌else◌, length, [], ◌∷◌, u32, sub32}
use zephyr_uoscore_uedhoc.Memory.{
  Bytes, Result, ok, err, ◌>>=◌, ◌>>◌, check_buffer_size, copy_s, append_s, store,
  array_equals_from, mac_authentication_failed, signature_authentication_failed,
}
use zephyr_uoscore_uedhoc.Crypto.Wrapper.{expect}
use zephyr_uoscore_uedhoc.Edhoc.Suites.{Suite, get_hash_len}
use zephyr_uoscore_uedhoc.Edhoc.Coders.{EdhocExternal}
use zephyr_uoscore_uedhoc.Edhoc.Wrapper.{sign, verify}
use zephyr_uoscore_uedhoc.Edhoc.Keys.{okm_calc, cose_sig_structure_encode}

-- `CONTEXT_MAC_DEFAULT_SIZE`
abbrev pub context_mac_default_size : ℕ
context_mac_default_size = 1200

-- `SIGNATURE_STRUCT_DEFAULT_SIZE`
abbrev pub signature_struct_default_size : ℕ
signature_struct_default_size = 1200

-- `CRED_DEFAULT_SIZE + SHA_DEFAULT_SIZE + AD_DEFAULT_SIZE`
abbrev pub external_aad_size : ℕ
external_aad_size = 888

-- "Signature1"
abbrev pub signature_1 : Bytes
signature_1 = 83 ∷ 105 ∷ 103 ∷ 110 ∷ 97 ∷ 116 ∷ 117 ∷ 114 ∷ 101 ∷ 49 ∷ []

-- The arguments of `signature_or_mac` that say what is authenticated.
pub record Statement : Type 0 where
  pub prk : Bytes
  pub th : Bytes
  pub id_cred : Bytes
  pub cred : Bytes
  pub ead : Bytes
  pub mac_label : Bytes

module _ (ex : EdhocExternal) where
  unfoldable pub encode_byte_string : Bytes → ℕ → Result Bytes
  encode_byte_string in_ out_len = expect (ex.cbor_encode_bstr_type_b_str out_len in_)

  unfoldable pub decode_byte_string : Bytes → ℕ → Result Bytes
  decode_byte_string in_ out_len = do
    str ← expect (ex.cbor_decode_bstr_type_b_str in_)
    copy_s out_len str.ptr str.len

  unfoldable pub mac_context : Statement → Result Bytes
  mac_context s =
      let context_mac_len = u32 (length s.id_cred + length s.cred + length s.ead) in
      do
        check_buffer_size context_mac_default_size context_mac_len
        a ← append_s context_mac_default_size [] context_mac_len s.id_cred (length s.id_cred)
        b ←
            append_s context_mac_default_size a (sub32 context_mac_len (length s.id_cred)) s.cred
              (length s.cred)
        append_s context_mac_default_size b
            (sub32 (sub32 context_mac_len (length s.id_cred)) (length s.cred)) s.ead (length s.ead)

  unfoldable pub mac_length : Bool → Suite → ℕ
  mac_length static_dh suite =
      if static_dh then suite.edhoc_mac_len_static_dh else get_hash_len suite.edhoc_hash

  unfoldable pub mac : Statement → Bool → Suite → Result Bytes
  mac s static_dh suite = do
    context_mac ← mac_context s
    okm_calc ex suite.edhoc_hash s.prk s.th s.mac_label context_mac (mac_length static_dh suite)

  unfoldable pub signature_struct_gen : Statement → Bytes → Result Bytes
  signature_struct_gen s mac_bytes = do
    th_enc ← encode_byte_string s.th 34
    check_buffer_size external_aad_size (u32 (length th_enc + length s.cred + length s.ead))
    a ← store external_aad_size [] th_enc
    b ← store external_aad_size a s.cred
    tmp ← store external_aad_size b s.ead
    cose_sig_structure_encode ex signature_1 s.id_cred tmp mac_bytes signature_struct_default_size

  -- `signature_or_mac` with the operation GENERATE
  unfoldable pub signature_or_mac_generate : Statement → Bool → Suite → Bytes → Bytes → Result Bytes
  signature_or_mac_generate s static_dh suite sk pk = do
    mac_bytes ← mac s static_dh suite
    (if static_dh then ok mac_bytes else (do
      signature_struct ← signature_struct_gen s mac_bytes
      sign ex suite.edhoc_sign sk pk signature_struct))

  -- `signature_or_mac` with the operation VERIFY: the comparison has the length of what was
  -- received, not that of the MAC
  unfoldable pub signature_or_mac_verify :
      Statement → Bool → Suite → Bytes → Bytes → Result (Unit {0})
  signature_or_mac_verify s static_dh suite pk signature_or_mac = do
    check_buffer_size 32 (get_hash_len suite.edhoc_hash)
    mac_bytes ← mac s static_dh suite
    (if static_dh
        then (do
          equal ← array_equals_from (length signature_or_mac) mac_bytes signature_or_mac
          if equal then ok tt else err mac_authentication_failed)
        else (do
          signature_struct ← signature_struct_gen s mac_bytes
          result ← verify ex suite.edhoc_sign pk signature_struct signature_or_mac
          if result then ok tt else err signature_authentication_failed))
