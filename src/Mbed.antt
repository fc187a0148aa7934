-- ===== src/Mbed.antt =====
-- src/common/crypto_wrapper.c as it is built for Mbed TLS: what it calls of Mbed TLS and of its
-- PSA interface, as parameters, and the macro TRY_EXPECT_PSA.
--
-- As in EDHOC, a pointer and its length are the list of the bytes between them.
pub mod Wrapper
pub mod Curve
pub mod Expansion
pub mod Certificates
pub mod Certified
pub mod Point
pub mod Released
pub mod KeyStore
use zephyr_uoscore_uedhoc.Prelude.{ℕ, Option, none, some, List, Bool, ◌==◌, if◌then◌else◌}
use zephyr_uoscore_uedhoc.Memory.{
  Bytes, Result, Err, ok, err, fault, unexpected_result_from_ext_lib,
}
use zephyr_uoscore_uedhoc.Context.{call}

-- The algorithms that are used; that of the AEAD has the length of its tag.
pub data PsaAlg : Type 0 where
  ccm_with_tag : ℕ → PsaAlg
  ecdsa_sha_256 hmac_sha_256 ecdh_agreement : PsaAlg

pub data KeyType : Type 0 where
  aes_key hmac_key ecc_key_pair ecc_public_key : KeyType

pub data Usage : Type 0 where
  may_encrypt may_decrypt may_sign_message may_sign_hash may_verify_message may_verify_hash : Usage
  may_derive may_export : Usage

-- What is set of `psa_key_attributes_t`: 0 bits where none are set. Every key is volatile, which is
-- also the lifetime of one for which none is set.
pub record Attributes : Type 0 where
  pub usage : List Usage
  pub algorithm : PsaAlg
  pub type : KeyType
  pub bits : ℕ

-- The members of `mbedtls_ecp_group` that are read; `a` is not there where its limbs are NULL.
pub record Group (Mpi : Type 0) : Type 0 where
  pub p : Mpi
  pub a : Option Mpi
  pub b : Mpi

-- `Store` is what Mbed TLS keeps between calls, `Mpi` its integers. A call returns nothing where its
-- status is not success; the identifier of a key stays 0 where it is not imported or generated. A
-- call that writes an output is given its size, and returns the bytes written.
pub record Psa (Store Mpi : Type 0) : Type 0 where
  pub psa_crypto_init : Store → Option (Unit {0}) × Store
  pub psa_import_key : Attributes → Bytes → Store → Option ℕ × Store
  pub psa_generate_key : Attributes → Store → Option ℕ × Store
  pub psa_destroy_key : ℕ → Store → Option (Unit {0}) × Store
  -- key, algorithm, nonce, associated data, message, size of the output
  pub psa_aead_encrypt : ℕ → PsaAlg → Bytes → Bytes → Bytes → ℕ → Store → Option Bytes × Store
  pub psa_aead_decrypt : ℕ → PsaAlg → Bytes → Bytes → Bytes → ℕ → Store → Option Bytes × Store
  pub psa_mac_compute : ℕ → PsaAlg → Bytes → ℕ → Store → Option Bytes × Store
  pub psa_sign_message : ℕ → PsaAlg → Bytes → ℕ → Store → Option Bytes × Store
  pub psa_verify_message : ℕ → PsaAlg → Bytes → Bytes → Store → Option (Unit {0}) × Store
  pub psa_raw_key_agreement : PsaAlg → ℕ → Bytes → ℕ → Store → Option Bytes × Store
  pub raw_key_agreement_output_size : KeyType → ℕ → ℕ
  pub psa_export_key : ℕ → ℕ → Store → Option Bytes × Store
  pub psa_export_public_key : ℕ → ℕ → Store → Option Bytes × Store
  pub psa_hash_compute : Bytes → ℕ → Option Bytes
  pub mbedtls_pk_setup : Bool
  pub mbedtls_ecp_group_load : Option (Group Mpi)
  pub mbedtls_mpi_size : Mpi → ℕ
  pub mbedtls_mpi_read_binary : Bytes → Option Mpi
  pub mbedtls_mpi_write_binary : Mpi → ℕ → Option Bytes
  pub mbedtls_mpi_add_mpi : Mpi → Mpi → Option Mpi
  pub mbedtls_mpi_sub_mpi : Mpi → Mpi → Option Mpi
  pub mbedtls_mpi_mul_mpi : Mpi → Mpi → Option Mpi
  pub mbedtls_mpi_add_int : Mpi → ℕ → Option Mpi
  pub mbedtls_mpi_sub_int : Mpi → ℕ → Option Mpi
  pub mbedtls_mpi_shift_r : Mpi → ℕ → Option Mpi
  pub mbedtls_mpi_exp_mod : Mpi → Mpi → Mpi → Option Mpi
  pub mbedtls_mpi_get_bit : Mpi → ℕ → Bool

-- A function that may change what Mbed TLS keeps.
abbrev pub Stateful : Type 0 → Type 0 → Type 0
Stateful Store A = Store → Result A × Store

module _ {Store A B : Type 0} where
  abbrev pub continued : (A → Stateful Store B) → Result A × Store → Result B × Store
  continued f (ok a, s) = f a s
  continued f (err e, s) = (err e, s)
  continued f (fault, s) = (fault, s)

infixl 5 ◌>>=◌ ◌>>◌
abbrev pub ◌>>=◌ :
    {Store A B : Type 0} → Stateful Store A → (A → Stateful Store B) → Stateful Store B
◌>>=◌ m f s = continued f (m s)

abbrev pub ◌>>◌ :
    {Store B : Type 0} → Stateful Store (Unit {0}) → Stateful Store B → Stateful Store B
m >> k = m >>= λ _. k

-- A call that does not reach the store.
abbrev pub unchanged : {Store A : Type 0} → Result A → Stateful Store A
unchanged r s = (r, s)

module _ {Store Mpi : Type 0} (psa : Psa Store Mpi) where
  -- What a failed call leaves: the key is destroyed where there is one.
  abbrev pub given_up : ℕ → Store → Store
  given_up key_id s = if key_id == 0 then s else (psa.psa_destroy_key key_id s).1

  abbrev pub checked : {A : Type 0} → ℕ → Err → Option A × Store → Result A × Store
  checked key_id code (some a, s) = (ok a, s)
  checked key_id code (none, s) = (err code, given_up key_id s)

  -- The macro TRY_EXPECT_PSA.
  unfoldable pub try_expect_psa :
      {A : Type 0} → ℕ → Err → (Store → Option A × Store) → Stateful Store A
  try_expect_psa key_id code call s = checked key_id code (call s)

  -- TRY_EXPECT_PSA on the initialisation, before there is a key.
  abbrev pub initialise : Stateful Store (Unit {0})
  initialise = try_expect_psa 0 unexpected_result_from_ext_lib psa.psa_crypto_init

  abbrev pub destroyed : Option (Unit {0}) × Store → Result (Unit {0}) × Store
  destroyed (some tt, s) = (ok tt, s)
  destroyed (none, s) = (err unexpected_result_from_ext_lib, s)

  -- TRY_EXPECT on the destruction of the key.
  unfoldable pub destroy : ℕ → Stateful Store (Unit {0})
  destroy key_id s = destroyed (psa.psa_destroy_key key_id s)
