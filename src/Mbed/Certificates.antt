-- ===== src/Mbed/Certificates.antt =====
-- `cert_x509_verify` and its callbacks in src/edhoc/cert.c, as they are built for Mbed TLS.
use zephyr_uoscore_uedhoc.Mbed.{◌>>=◌, Psa, Stateful, unchanged}
use zephyr_uoscore_uedhoc.Prelude.{
  Bool, List, Option, [], drop, if◌then◌else◌, leb, length, ltb, none, some, ℕ, ◌++◌, ◌+◌, ◌-◌,
  ◌==◌, ◌∷◌,
}
use zephyr_uoscore_uedhoc.Memory.{
  Bytes, Result, copy_s, deref, err, fault, ok, read, unsupported_signature_algorithm,
}
use zephyr_uoscore_uedhoc.Edhoc.Credentials.{OtherPartyCred, Verified, ca_pk_get}
use zephyr_uoscore_uedhoc.Crypto.Wrapper.{expect}
use zephyr_uoscore_uedhoc.Edhoc.Coders.{EdhocExternal}
use zephyr_uoscore_uedhoc.Mbed.Curve.{verified, verify_psa}
use zephyr_uoscore_uedhoc.Edhoc.Suites.{es256}

pub data Asn1Tag : Type 0 where
  asn1_integer asn1_bit_string asn1_other : Asn1Tag

-- An element for which the traversal of a sequence calls back: where its content starts in the
-- traversed buffer, and how long it is.
pub record Asn1Item : Type 0 where
  pub tag : Asn1Tag
  pub start : ℕ
  pub len : ℕ

-- `mbedtls_x509_name`: whether it is a common name, and the pointer to its value.
pub record X509Name : Type 0 where
  pub is_common_name : Bool
  pub val : Bytes

-- What is read of a parsed `mbedtls_x509_crt`. `hash_len` is the size of the hash `sig_md`, where
-- Mbed TLS knows it.
pub record X509Crt : Type 0 where
  pub issuer : List X509Name
  pub is_ecdsa : Bool
  pub hash_len : Option ℕ
  pub sig : Bytes
  pub tbs : Bytes
  pub pk_raw : Bytes

-- The calls of Mbed TLS: the parser, and the traversal of a sequence.
pub record X509Reader : Type 0 where
  pub mbedtls_x509_crt_parse_der_nocopy : Bytes → Option X509Crt
  pub mbedtls_asn1_traverse_sequence_of : Bytes → List Asn1Item

-- The loop over the names of the issuer: the last common name.
unfoldable pub issuer_id : List X509Name → Option Bytes → Option Bytes
issuer_id [] found = found
issuer_id (name ∷ names) found =
    issuer_id names (if name.is_common_name then some name.val else found)

-- The last bytes of a number, as many as a unit has, whatever the number's length.
unfoldable pub unit_bytes : ℕ → Bytes → Asn1Item → Result Bytes
unit_bytes unit_size raw item =
    let end = item.start + item.len in
    if ltb end unit_size then fault else read unit_size (drop (end - unit_size) raw)

abbrev pub stored_behind : Bytes → Result Bytes → Result Bytes
stored_behind out (ok unit) = ok (out ++ unit)
stored_behind out (err code) = err code
stored_behind out fault = fault

-- The callback on one element, with the bytes stored so far.
unfoldable pub deser_sign_cb : ℕ → ℕ → Bytes → Asn1Item → Bytes → Result Bytes
deser_sign_cb sig_len unit_size raw item out =
    let stored = stored_behind out (unit_bytes unit_size raw item) in
    elim item.tag [
      | asn1_integer ↦ if leb (length out + unit_size) sig_len then stored else ok out
      | asn1_bit_string ↦ ok out
      | asn1_other ↦ ok out
    ]

unfoldable pub deser_sign : ℕ → ℕ → Bytes → List Asn1Item → Bytes → Result Bytes
deser_sign sig_len unit_size raw [] out = ok out
deser_sign sig_len unit_size raw (item ∷ items) out =
    elim (deser_sign_cb sig_len unit_size raw item out) [
      | ok out' ↦ deser_sign sig_len unit_size raw items out'
      | err code ↦ err code
      | fault ↦ fault
    ]

-- The callback that looks for the public key: the start of the last bit string.
unfoldable pub find_pk : List Asn1Item → Option ℕ → Option ℕ
find_pk [] found = found
find_pk (item ∷ items) found = find_pk items (elim item.tag [
  | asn1_integer ↦ found
  | asn1_bit_string ↦ some item.start
  | asn1_other ↦ found
])

-- The key from there to the end, without a leading zero; without a bit string it is empty.
unfoldable pub exported_pk : ℕ → Bytes → Option ℕ → Result Bytes
exported_pk pk_len pk_raw none = ok []
exported_pk pk_len pk_raw (some start) = elim (deref (drop start pk_raw)) [
  | ok first ↦
      let key_bytes = drop (if first == 0 then start + 1 else start) pk_raw in
      copy_s pk_len key_bytes (length key_bytes)
  | err code ↦ err code
  | fault ↦ fault
]

-- `issuer_id->p`
abbrev pub issuer_pointer : Option Bytes → Result Bytes
issuer_pointer none = fault
issuer_pointer (some p) = ok p

module _ {Store Mpi : Type 0} (ex : EdhocExternal) (psa : Psa Store Mpi) (reader : X509Reader) where
  -- The certificate after the checks of its algorithms; `old` is what the array for the signature
  -- held before.
  unfoldable pub x509_signature_verify :
      X509Crt → ℕ → List OtherPartyCred → ℕ → Bytes → Stateful Store Verified
  x509_signature_verify m_cert hash_len cred_array pk_len old = do
    issuer ← unchanged (issuer_pointer (issuer_id m_cert.issuer none))
    root_pk ← unchanged (ca_pk_get cred_array issuer)
    out ←
        unchanged (
          deser_sign 64 hash_len m_cert.sig (reader.mbedtls_asn1_traverse_sequence_of m_cert.sig)
            [])
    verified ← verify_psa ex psa es256 root_pk m_cert.tbs (out ++ drop (length out) old)
    pk ← unchanged (
        exported_pk pk_len m_cert.pk_raw
          (find_pk (reader.mbedtls_asn1_traverse_sequence_of m_cert.pk_raw) none))
    unchanged (ok (record { verified = verified; pk = pk }))

  abbrev pub x509_supported :
      X509Crt → Option ℕ → List OtherPartyCred → ℕ → Bytes → Stateful Store Verified
  x509_supported m_cert none cred_array pk_len old = unchanged (err unsupported_signature_algorithm)
  x509_supported m_cert (some hash_len) cred_array pk_len old =
      if m_cert.is_ecdsa
      then x509_signature_verify m_cert hash_len cred_array pk_len old
      else unchanged (err unsupported_signature_algorithm)

  unfoldable pub cert_x509_verify_psa :
      Bytes → List OtherPartyCred → ℕ → Bytes → Stateful Store Verified
  cert_x509_verify_psa cert cred_array pk_len old = do
    m_cert ← unchanged (expect (reader.mbedtls_x509_crt_parse_der_nocopy cert))
    x509_supported m_cert m_cert.hash_len cred_array pk_len old
