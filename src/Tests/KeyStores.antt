-- ===== src/Tests/KeyStores.antt =====
-- The functions over Mbed TLS with a store of keys that is a list.
use zephyr_uoscore_uedhoc.Prelude.{
  List, Option, [], arith, if◌then◌else◌, length, none, refl, replicate, some, take, true, ℕ, ◌%◌,
  ◌*◌, ◌++◌, ◌+◌, ◌-◌, ◌/◌, ◌==◌, ◌^◌, ◌∷◌, ◌≡◌,
}
use zephyr_uoscore_uedhoc.Crypto.{External}
use zephyr_uoscore_uedhoc.Memory.{
  Bytes, of_bytes, ok, array_equals_from, check_buffer_size, copy_s, deref, read,
}
use zephyr_uoscore_uedhoc.Mbed.Wrapper.{
  hkdf_expand_psa, aead_decrypt_psa, aead_encrypt_psa, hkdf_extract_psa,
}
use zephyr_uoscore_uedhoc.Mbed.Expansion.{SameHmac, hkdf_expand_psa-hkdf_expand}
use zephyr_uoscore_uedhoc.Crypto.Wrapper.{hkdf_expand}
use zephyr_uoscore_uedhoc.Mbed.KeyStore.{IsKeyStore}
use zephyr_uoscore_uedhoc.Edhoc.Suites.{sha_256, es256, p256}
use zephyr_uoscore_uedhoc.Mbed.{Psa, destroy, try_expect_psa}
use zephyr_uoscore_uedhoc.Tests.Endpoints.{external}
use zephyr_uoscore_uedhoc.Mbed.Curve.{
  ephemeral_dh_key_gen_psa, shared_secret_derive_psa, sign_psa, verify_psa,
}
use zephyr_uoscore_uedhoc.Tests.Peers.{coders}
use zephyr_uoscore_uedhoc.Mbed.Released.{Keeps, crypto_wrapper_releases}
use zephyr_uoscore_uedhoc.Mbed.Certificates.{
  X509Crt, X509Reader, asn1_bit_string, asn1_integer, cert_x509_verify_psa, deser_sign,
  deser_sign_cb, exported_pk, find_pk, issuer_id, unit_bytes, x509_signature_verify,
}
use zephyr_uoscore_uedhoc.Mbed.Certified.{Accepts, cert_x509_verify_psa-Accepts}
use zephyr_uoscore_uedhoc.Edhoc.Credentials.{OtherPartyCred, ca_pk_get}

-- An HMAC that shows the lengths of its arguments.
abbrev hmac : Bytes → Bytes → Bytes
hmac k m = length k % 256 ∷ length m % 256 ∷ replicate 30 0

abbrev Entries : Type 0
Entries = List (ℕ × Bytes)

abbrev ids_of : Entries → List ℕ
ids_of [] = []
ids_of ((n, k) ∷ entries) = n ∷ ids_of entries

abbrev content_of : Entries → ℕ → Option Bytes
content_of [] id = none
content_of ((n, k) ∷ entries) id = if n == id then some k else content_of entries id

abbrev without : ℕ → Entries → Entries
without id [] = []
without id ((n, k) ∷ entries) = if n == id then entries else (n, k) ∷ without id entries

abbrev hmac_under : Bytes → Option Bytes → Option Bytes
hmac_under m none = none
hmac_under m (some k) = some (hmac k m)

abbrev psa : Psa Entries ℕ
psa = record {
  psa_crypto_init = λ s. (some tt, s);
  psa_import_key = λ a k s. (some (length s + 1), (length s + 1, k) ∷ s);
  psa_generate_key = λ a s. (some (length s + 1), (length s + 1, replicate 32 7) ∷ s);
  psa_destroy_key = λ id s. (some tt, without id s);
  psa_aead_encrypt = λ id alg n a m size s. (some (m ++ replicate (size - length m) 0), s);
  psa_aead_decrypt = λ id alg n a m size s. (some (take size m), s);
  psa_mac_compute = λ id alg m size s. (hmac_under m (content_of s id), s);
  psa_sign_message = λ id alg m size s. (some (replicate size 3), s);
  psa_verify_message = λ id alg m g s. (none, s);
  psa_raw_key_agreement = λ alg id pk size s. (some (replicate size 5), s);
  raw_key_agreement_output_size = λ type bits. 32;
  psa_export_key = λ id size s. (content_of s id, s);
  psa_export_public_key = λ id size s. (some (replicate size 4), s);
  psa_hash_compute = λ m size. some (replicate size 9);
  mbedtls_pk_setup = true;
  mbedtls_ecp_group_load = some (record { p = 7; a = none; b = 3 });
  mbedtls_mpi_size = λ n. 1;
  mbedtls_mpi_read_binary = λ bytes. some (length bytes);
  mbedtls_mpi_write_binary = λ n size. some (replicate size (n % 256));
  mbedtls_mpi_add_mpi = λ m n. some (m + n);
  mbedtls_mpi_sub_mpi = λ m n. some (m - n);
  mbedtls_mpi_mul_mpi = λ m n. some (m * n);
  mbedtls_mpi_add_int = λ m n. some (m + n);
  mbedtls_mpi_sub_int = λ m n. some (m - n);
  mbedtls_mpi_shift_r = λ m n. some (m / 2 ^ n);
  mbedtls_mpi_exp_mod = λ m e n. some (m % 7);
  mbedtls_mpi_get_bit = λ m n. m % 2 == 1;
}

ids_of-without :
    (id : ℕ) (ids : List ℕ) (s : Entries) → ids_of s ≡ id ∷ ids → ids_of (without id s) ≡ ids
ids_of-without id ids [] h = ground arith
ids_of-without id ids ((n, k) ∷ entries) h = ground arith

psa-IsKeyStore : IsKeyStore psa ids_of
psa-IsKeyStore = record {
  init = λ s. refl;
  imported = λ a k s. (omega arith, refl);
  generated = λ a s. (omega arith, refl);
  destroys = ids_of-without;
  encrypts = λ id alg n a m size s. refl;
  decrypts = λ id alg n a m size s. refl;
  computes = λ id alg m size s. refl;
  signs = λ id alg m size s. refl;
  verifies = λ id alg m g s. refl;
  agrees = λ alg id pk size s. refl;
  exports = λ id size s. refl;
  exports_public = λ id size s. refl;
}

abbrev hmac_external : External
hmac_external = record external { tc_hmac = λ k m. some (hmac k m) }

psa-SameHmac : SameHmac hmac_external psa hmac content_of
psa-SameHmac = record {
  hmac_len = λ k m. refl;
  tinycrypt = λ k m. refl;
  ready = λ s. (s, refl);
  imported_key = λ k s.
      let found : (length s + 1 == length s + 1) ≡ true = ground arith in
      (length s + 1, (length s + 1, k) ∷ s, refl, rw found refl);
  computed = λ id k m s h. (s, rw h refl, h);
  destroys_key = λ id k s h. (without id s, refl);
}

hkdf_expand_psa-hkdf_expand_example :
    (out : Bytes) × (t : Entries) × (hkdf_expand_psa psa sha_256 (1 ∷ []) (2 ∷ 3 ∷ []) 40 []
      ≡ (ok out, t))
    × (hkdf_expand hmac_external (1 ∷ []) (of_bytes (2 ∷ 3 ∷ [])) 40 ≡ ok out)
hkdf_expand_psa-hkdf_expand_example =
    hkdf_expand_psa-hkdf_expand hmac_external psa hmac content_of psa-SameHmac (1 ∷ []) (2 ∷ 3 ∷ [])
      40 [] (omega arith) (omega arith)

crypto_wrapper_releases_example :
    Keeps coders psa ids_of [] (aead_encrypt_psa psa (5 ∷ []) (replicate 16 1) [] [] 8 [])
    × Keeps coders psa ids_of [] (aead_decrypt_psa psa (5 ∷ []) (replicate 16 1) [] [] 1 8 [])
    × Keeps coders psa ids_of [] (hkdf_extract_psa psa sha_256 [] (6 ∷ []) [])
    × Keeps coders psa ids_of [] (hkdf_expand_psa psa sha_256 (7 ∷ []) (8 ∷ []) 1 [])
    × Keeps coders psa ids_of [] (sign_psa coders psa es256 (9 ∷ []) (2 ∷ []) (3 ∷ []) [])
    × Keeps coders psa ids_of [] (verify_psa coders psa es256 (2 ∷ []) (3 ∷ []) (4 ∷ []) [])
    × Keeps coders psa ids_of [] (shared_secret_derive_psa coders psa p256 (9 ∷ []) (2 ∷ []) [])
    × Keeps coders psa ids_of [] (ephemeral_dh_key_gen_psa coders psa p256 11 [] 33 [])
crypto_wrapper_releases_example =
    crypto_wrapper_releases coders psa ids_of psa-IsKeyStore (5 ∷ []) (replicate 16 1) [] [] []
      (6 ∷ []) (7 ∷ []) (8 ∷ []) (9 ∷ []) (2 ∷ []) (3 ∷ []) (4 ∷ []) [] 8 1 11 33 sha_256 es256 p256
      []

-- A reader that finds two numbers of 32 bytes in a signature and a key behind a zero byte, of a
-- certificate whose issuer is "CA".
abbrev reader : X509Reader
reader = record {
  mbedtls_x509_crt_parse_der_nocopy = λ cert. some (record {
    issuer = record { is_common_name = true; val = b'C' ∷ b'A' ∷ [] } ∷ [];
    is_ecdsa = true;
    hash_len = some 32;
    sig = replicate 64 1;
    tbs = cert;
    pk_raw = 0 ∷ 4 ∷ 5 ∷ [];
  });
  mbedtls_asn1_traverse_sequence_of = λ bytes.
      if length bytes == 64
      then (record { tag = asn1_integer; start = 0; len = 32 }
          ∷ record { tag = asn1_integer; start = 32; len = 32 }
          ∷ [])
      else (record { tag = asn1_bit_string; start = 0; len = 3 } ∷ []);
}

abbrev ca : OtherPartyCred
ca = record {
  id_cred = [];
  cred = [];
  pk = [];
  g = [];
  ca = b'C' ∷ b'A' ∷ [];
  ca_pk = 4 ∷ replicate 64 9;
}

abbrev accepting : Psa Entries ℕ
accepting = record psa { psa_verify_message = λ id alg m g s. (some tt, s) }

cert_x509_verify_psa-Accepts_example :
    (crt : X509Crt) × (issuer : Bytes) × (root_pk : Bytes) × (sig : Bytes)
    × (reader.mbedtls_x509_crt_parse_der_nocopy (8 ∷ 8 ∷ []) ≡ some crt)
    × (crt.is_ecdsa ≡ true)
    × (issuer_id crt.issuer none ≡ some issuer)
    × (ca_pk_get (ca ∷ []) issuer ≡ ok root_pk)
    × Accepts coders accepting root_pk crt.tbs sig
unfolding cert_x509_verify_psa x509_signature_verify issuer_id ca_pk_get deser_sign deser_sign_cb
    unit_bytes verify_psa try_expect_psa destroy exported_pk find_pk read array_equals_from deref
    copy_s check_buffer_size
cert_x509_verify_psa-Accepts_example =
    cert_x509_verify_psa-Accepts coders accepting reader (8 ∷ 8 ∷ []) (ca ∷ []) 65 (replicate 64 0)
      [] [] (record { verified = true; pk = 4 ∷ 5 ∷ [] }) refl refl
