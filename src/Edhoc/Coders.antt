-- ===== src/Edhoc/Coders.antt =====
-- What EDHOC calls and this library does not define, as parameters: the generated CBOR coders
-- (src/cbor, over zcbor), SHA-256 of TinyCrypt, and compact25519. The records are the structs of
-- inc/cbor/edhoc_*_types.h.
use zephyr_uoscore_uedhoc.Prelude.{ℕ, Option, Bool, List}
use zephyr_uoscore_uedhoc.Memory.{Bytes, ByteArray}
use zephyr_uoscore_uedhoc.Crypto.{External}
use zephyr_uoscore_uedhoc.Edhoc.Suites.{Cx}

-- A decoded connection identifier
pub data CxString : Type 0 where
  id_int : ℕ → CxString
  id_bstr : ByteArray → CxString

-- `_message_1_SUITES_I`
pub data SuitesI : Type 0 where
  suites_int : ℕ → SuitesI
  suites_list : List ℕ → SuitesI

-- `struct message_1`
pub record Message1 : Type 0 where
  pub method : ℕ
  pub suites_i : SuitesI
  pub g_x : ByteArray
  pub c_i : CxString
  pub ead_1 : Option ByteArray

-- `struct m2`
pub record M2 : Type 0 where
  pub g_y_ciphertext_2 : ByteArray
  pub c_r : CxString

-- `struct map` and `struct id_cred_x_map`; an entry that is not present is `none`. The algorithm
-- of a hash is what the integer member of its union holds.
pub record IdCredMap : Type 0 where
  pub kid : Option ℕ
  pub x5bag : Option ByteArray
  pub x5chain : Option ByteArray
  pub x5t : Option (ℕ × ByteArray)
  pub x5u : Option ByteArray
  pub c5b : Option ByteArray
  pub c5c : Option ByteArray
  pub c5t : Option (ℕ × ByteArray)
  pub c5u : Option ByteArray

-- `_plaintext_ID_CRED_x`
pub data IdCredX : Type 0 where
  id_map : IdCredMap → IdCredX
  id_kid_bstr : ByteArray → IdCredX
  id_kid_int : ℕ → IdCredX

-- `struct plaintext`
pub record PlaintextX : Type 0 where
  pub id_cred_x : IdCredX
  pub sgn_or_mac_x : ByteArray
  pub ad_x : Option ByteArray

-- `struct info`
pub record Info : Type 0 where
  pub transcript_hash : Bytes
  pub label : Bytes
  pub context : Bytes
  pub length : ℕ

-- `struct th2`
pub record Th2 : Type 0 where
  pub hash_msg1 : Bytes
  pub g_y : Bytes
  pub c_r : Cx

-- `struct sig_structure`
pub record SigStructure : Type 0 where
  pub context : Bytes
  pub protected : Bytes
  pub external_aad : Bytes
  pub payload : Bytes

-- `struct cert`: the members that the code reads
pub record Cert : Type 0 where
  pub issuer : ByteArray
  pub issuer_signature_algorithm : ℕ
  pub pk : ByteArray
  pub signature : ByteArray

-- An encoder is given the size of its buffer, and returns the bytes that it wrote, or nothing
-- where it returns false. A decoder is given the bytes of its buffer.
pub record EdhocExternal : Type 0 where
  pub crypto : External
  pub cbor_encode_message_1 : ℕ → Message1 → Option Bytes
  pub cbor_decode_message_1 : Bytes → Option Message1
  pub cbor_encode_m2 : ℕ → M2 → Option Bytes
  pub cbor_decode_m2 : Bytes → Option M2
  pub cbor_decode_plaintext : Bytes → Option PlaintextX
  pub cbor_encode_id_cred_x_map : ℕ → IdCredMap → Option Bytes
  pub cbor_decode_id_cred_x_map : Bytes → Option IdCredMap
  pub cbor_encode_bstr_type_b_str : ℕ → Bytes → Option Bytes
  pub cbor_decode_bstr_type_b_str : Bytes → Option ByteArray
  pub cbor_encode_int_type_i : ℕ → ℕ → Option Bytes
  pub cbor_encode_info : ℕ → Info → Option Bytes
  pub cbor_encode_th2 : ℕ → Th2 → Option Bytes
  -- a transcript hash and a ciphertext
  pub cbor_encode_th3 : ℕ → Bytes × Bytes → Option Bytes
  pub cbor_encode_th4 : ℕ → Bytes × Bytes → Option Bytes
  -- context, protected header and external associated data
  pub cbor_encode_edhoc_enc_structure : ℕ → Bytes × Bytes × Bytes → Option Bytes
  pub cbor_encode_sig_structure : ℕ → SigStructure → Option Bytes
  pub cbor_decode_cert : Bytes → Option Cert
  -- the 32 bytes of SHA-256
  pub tc_sha256 : Bytes → Option Bytes
  -- public key, secret key, message: the 64 bytes of the signature
  pub edsign_sign : Bytes → Bytes → Bytes → Bytes
  -- signature, public key, message
  pub edsign_verify : Bytes → Bytes → Bytes → Bool
  -- secret key as given, public key: the shared secret of `c25519_prepare` and `c25519_smult`
  pub x25519_shared : Bytes → Bytes → Bytes
  -- the 32 bytes of the seed's hash: secret and public key
  pub compact_x25519_keygen : Bytes → Bytes × Bytes
