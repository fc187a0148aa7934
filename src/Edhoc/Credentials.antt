-- ===== src/Edhoc/Credentials.antt =====
-- The credentials of the other party: src/edhoc/retrieve_cred.c and src/edhoc/cert.c. Without
-- Mbed TLS, `cert_x509_verify` verifies nothing.
use zephyr_uoscore_uedhoc.Prelude.{
  ℕ, ◌-◌, ◌==◌, Bool, true, false, ◌||◌, List, [], ◌∷◌, Option, none, some, length, if◌then◌else◌,
  sub32, drop, map,
}
use zephyr_uoscore_uedhoc.Memory.{
  Bytes, ByteArray, Result, ok, err, ◌>>=◌, read, copy_s, array_equals_from, credential_not_found,
  no_such_ca, certificate_authentication_failed,
}
use zephyr_uoscore_uedhoc.Crypto.Wrapper.{expect}
use zephyr_uoscore_uedhoc.Edhoc.Suites.{SignAlg, eddsa, es256, other_sign}
use zephyr_uoscore_uedhoc.Edhoc.Coders.{EdhocExternal, IdCredMap}
use zephyr_uoscore_uedhoc.Edhoc.Wrapper.{verify}
use zephyr_uoscore_uedhoc.Edhoc.Authentication.{encode_byte_string}

-- `struct other_party_cred`
pub record OtherPartyCred : Type 0 where
  pub id_cred : Bytes
  pub cred : Bytes
  pub pk : Bytes
  pub g : Bytes
  pub ca : Bytes
  pub ca_pk : Bytes

-- What `retrieve_cred` writes: the credential, and one of the two keys
pub record Retrieved : Type 0 where
  pub cred : Bytes
  pub pk : Bytes
  pub g : Bytes

-- The buffers that both parties retrieve into: `CRED_DEFAULT_SIZE`, `PK_DEFAULT_SIZE`,
-- `G_R_DEFAULT_SIZE` and `G_I_DEFAULT_SIZE`
abbrev pub cred_default_size : ℕ
cred_default_size = 600

abbrev pub pk_default_size : ℕ
pk_default_size = 65

unfoldable pub static_dh_key : Bytes → Result Bytes
static_dh_key g =
    if length g == 65
    then (do x ← copy_s (pk_default_size - 1) (drop 1 g) 32; ok (2 ∷ x))
    else copy_s pk_default_size g (length g)

abbrev pub use_key : Bool → OtherPartyCred → Bytes → Result Retrieved
use_key true entry cred = do g ← static_dh_key entry.g; ok (record { cred = cred; pk = []; g = g })
use_key false entry cred = do
  pk ← copy_s pk_default_size entry.pk (length entry.pk)
  ok (record { cred = cred; pk = pk; g = [] })

unfoldable pub use_cred : Bool → OtherPartyCred → Result Retrieved
use_cred static_dh_auth entry = do
  cred ← copy_s cred_default_size entry.cred (length entry.cred)
  use_key static_dh_auth entry cred

-- Comparison of the bytes of the same length
abbrev pub same_id : Bytes → Bytes → Result Bool
same_id entry_id id_cred =
    if length entry_id == length id_cred
    then array_equals_from (length id_cred) entry_id id_cred
    else ok false

-- The loop over the credentials
unfoldable pub get_local_cred : Bool → List OtherPartyCred → Bytes → Result Retrieved
get_local_cred static_dh_auth [] id_cred = err credential_not_found
get_local_cred static_dh_auth (entry ∷ cred_array) id_cred =
    let rest = get_local_cred static_dh_auth cred_array id_cred in
    do found ← same_id entry.id_cred id_cred; if found then use_cred static_dh_auth entry else rest

-- The comparison has the length of the CA's name in the array, not that of the issuer's name.
unfoldable pub ca_pk_get : List OtherPartyCred → Bytes → Result Bytes
ca_pk_get [] issuer = err no_such_ca
ca_pk_get (entry ∷ cred_array) issuer =
    let rest = ca_pk_get cred_array issuer in
    do
      found ← array_equals_from (length entry.ca) entry.ca issuer
      if found then ok entry.ca_pk else rest

-- The cast of an `int32_t` to `enum sign_alg`
abbrev pub sign_alg_of : ℕ → SignAlg
sign_alg_of n = if n == 4294967288 then eddsa else if n == 4294967289 then es256 else other_sign

-- What the verification of a certificate writes: whether it is authentic, and its key
pub record Verified : Type 0 where
  pub verified : Bool
  pub pk : Bytes

-- The labels that `verify_cert2cred` is called with
pub data CertLabel : Type 0 where
  cert_x5bag cert_x5chain cert_c5b cert_c5c : CertLabel

abbrev pub is_present {ℓ} : {A : Type ℓ} → Option A → Bool
is_present none = false
is_present (some a) = true

-- Whether the credential is one that the device must hold
unfoldable pub is_local : IdCredMap → Bool
is_local map =
    is_present map.kid
    || is_present map.x5u
    || is_present map.x5t
    || is_present map.c5u
    || is_present map.c5t

module _ (ex : EdhocExternal) where
  unfoldable pub cert_c509_verify : Bytes → List OtherPartyCred → ℕ → Result Verified
  cert_c509_verify cert cred_array pk_len = do
    c ← expect (ex.cbor_decode_cert cert)
    root_pk ← ca_pk_get cred_array c.issuer.ptr
    msg ← read (sub32 (sub32 (length cert) 2) c.signature.len) cert
    verified ← verify ex (sign_alg_of c.issuer_signature_algorithm) root_pk msg c.signature.ptr
    pk ← copy_s pk_len c.pk.ptr c.pk.len
    ok (record { verified = verified; pk = pk })

  abbrev pub cert_x509_verify : Bytes → List OtherPartyCred → ℕ → Result Verified
  cert_x509_verify cert cred_array pk_len = ok (record { verified = false; pk = [] })

  abbrev pub verify_cert : CertLabel → Bytes → List OtherPartyCred → ℕ → Result Verified
  verify_cert cert_x5bag cert cred_array pk_len = cert_x509_verify cert cred_array pk_len
  verify_cert cert_x5chain cert cred_array pk_len = cert_x509_verify cert cred_array pk_len
  verify_cert cert_c5b cert cred_array pk_len = cert_c509_verify cert cred_array pk_len
  verify_cert cert_c5c cert cred_array pk_len = cert_c509_verify cert cred_array pk_len

  unfoldable pub verify_cert2cred :
      Bool → List OtherPartyCred → CertLabel → ByteArray → Result Retrieved
  verify_cert2cred static_dh_auth cred_array label cert = do
    bytes ← read cert.len cert.ptr
    cred ← encode_byte_string ex bytes cred_default_size
    v ← verify_cert label bytes cred_array pk_default_size
    (if v.verified
        then (if static_dh_auth
            then ok (record { cred = cred; pk = []; g = v.pk })
            else ok (record { cred = cred; pk = v.pk; g = [] }))
        else err certificate_authentication_failed)

  -- The certificates in the order of the tests
  abbrev pub transferred_cert :
      IdCredMap → (CertLabel → ByteArray → Result Retrieved) → Result Retrieved
  transferred_cert map check = elim map.x5chain [
    | some cert ↦ check cert_x5chain cert
    | none ↦ elim map.x5bag [
      | some cert ↦ check cert_x5bag cert
      | none ↦ elim map.c5c [
        | some cert ↦ check cert_c5c cert
        | none ↦ elim map.c5b [ some cert ↦ check cert_c5b cert | none ↦ err credential_not_found ]
      ]
    ]
  ]

  unfoldable pub retrieve_cred : Bool → List OtherPartyCred → Bytes → Result Retrieved
  retrieve_cred static_dh_auth cred_array id_cred = do
    map ← expect (ex.cbor_decode_id_cred_x_map id_cred)
    (if is_local map
        then get_local_cred static_dh_auth cred_array id_cred
        else transferred_cert map (verify_cert2cred static_dh_auth cred_array))
