-- ===== src/Edhoc/Keys.antt =====
-- The key schedule: src/edhoc/hkdf_info.c, okm.c, edhoc_exporter.c and prk.c, and the COSE
-- structures of edhoc_cose.c and associated_data_encode.c.
use zephyr_uoscore_uedhoc.Prelude.{ℕ, Bool, true, false, [], ◌∷◌}
use zephyr_uoscore_uedhoc.Memory.{Bytes, of_bytes, Result, ok, ◌>>=◌}
use zephyr_uoscore_uedhoc.Crypto.Wrapper.{expect, hkdf_extract}
use zephyr_uoscore_uedhoc.Edhoc.Suites.{HashAlg, Suite}
use zephyr_uoscore_uedhoc.Edhoc.Coders.{EdhocExternal}
use zephyr_uoscore_uedhoc.Edhoc.Wrapper.{shared_secret_derive, hkdf_expand_alg}

-- `INFO_DEFAULT_SIZE`
abbrev pub info_default_size : ℕ
info_default_size = 1200

-- "Encrypt0"
abbrev pub encrypt_0 : Bytes
encrypt_0 = 69 ∷ 110 ∷ 99 ∷ 114 ∷ 121 ∷ 112 ∷ 116 ∷ 48 ∷ []

module _ (ex : EdhocExternal) where
  unfoldable pub create_hkdf_info : Bytes → Bytes → Bytes → ℕ → ℕ → Result Bytes
  create_hkdf_info th label context okm_len out_len = expect (
      ex.cbor_encode_info out_len
        (record { transcript_hash = th; label = label; context = context; length = okm_len }))

  unfoldable pub okm_calc : HashAlg → Bytes → Bytes → Bytes → Bytes → ℕ → Result Bytes
  okm_calc hash_alg prk th label context okm_len = do
    info ← create_hkdf_info th label context okm_len info_default_size
    hkdf_expand_alg ex hash_alg prk (of_bytes info) okm_len

  unfoldable pub edhoc_exporter : HashAlg → Bytes → Bytes → Bytes → ℕ → Result Bytes
  edhoc_exporter app_hash_alg prk_4x3m th4 label out_len =
      okm_calc app_hash_alg prk_4x3m th4 label [] out_len

  abbrev pub prk_derive : Bool → Suite → Bytes → Bytes → Bytes → Result Bytes
  prk_derive true suite prk_in stat_pk stat_sk = do
    dh_secret ← shared_secret_derive ex suite.edhoc_ecdh stat_sk stat_pk
    hkdf_extract ex.crypto (of_bytes prk_in) (of_bytes dh_secret)
  prk_derive false suite prk_in stat_pk stat_sk = ok prk_in

  unfoldable pub cose_enc_structure_encode : Bytes → Bytes → Bytes → ℕ → Result Bytes
  cose_enc_structure_encode context protected external_aad out_len =
      expect (ex.cbor_encode_edhoc_enc_structure out_len (context, protected, external_aad))

  unfoldable pub cose_sig_structure_encode : Bytes → Bytes → Bytes → Bytes → ℕ → Result Bytes
  cose_sig_structure_encode context protected external_aad payload out_len = expect (
      ex.cbor_encode_sig_structure out_len (record {
        context = context;
        protected = protected;
        external_aad = external_aad;
        payload = payload;
      }))

  unfoldable pub associated_data_encode : Bytes → ℕ → Result Bytes
  associated_data_encode th out_len = cose_enc_structure_encode encrypt_0 [] th out_len
