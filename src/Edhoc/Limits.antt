-- ===== src/Edhoc/Limits.antt =====
-- The suites against the buffers of the protocol (src/edhoc/suites.c, inc/edhoc.h).
use zephyr_uoscore_uedhoc.Prelude.{ℕ, ◌≡◌, ◌≤◌, ◌<◌, arith}
use zephyr_uoscore_uedhoc.Memory.{ok}
use zephyr_uoscore_uedhoc.Edhoc.Suites.{
  Suite, get_aead_iv_len, get_aead_key_len, get_aead_mac_len, get_ecdh_pk_len, get_hash_len,
  get_signature_len, get_suite,
}

-- Every suite that `get_suite` returns is one of the four labels, has its label, and has a key of
-- 16 bytes, an IV that fills its buffer of 13, a hash that fills the buffers of 32, a tag within
-- 16 bytes that is as long as the static DH MAC, and a signature and public keys that fit.
pub get_suite-fits :
    (label : ℕ) (suite : Suite)
    → get_suite label ≡ ok suite
    → (label < 4)
      × (suite.suite_label ≡ label)
      × (get_aead_key_len suite.edhoc_aead ≡ 16)
      × (get_aead_iv_len suite.edhoc_aead ≡ 13)
      × (get_hash_len suite.edhoc_hash ≡ 32)
      × (get_aead_mac_len suite.edhoc_aead ≤ 16)
      × (suite.edhoc_mac_len_static_dh ≡ get_aead_mac_len suite.edhoc_aead)
      × (get_signature_len suite.edhoc_sign ≡ 64)
      × (get_ecdh_pk_len suite.edhoc_ecdh ≤ 33)
unfolding get_suite
get_suite-fits label suite e = ground arith
