-- ===== src/Context/Derive.antt =====
-- src/oscore/oscore_hkdf_info.c and the key derivations of src/oscore/security_context.c.
use zephyr_uoscore_uedhoc.Prelude.{ℕ, none, some, [], ◌∷◌, ◌==◌, if◌then◌else◌}
use zephyr_uoscore_uedhoc.Memory.{Bytes, ByteArray, Result, ok, err, ◌>>=◌, oscore_unknown_hkdf}
use zephyr_uoscore_uedhoc.Context.{
  DeriveType, key, iv, CommonContext, SenderContext, RecipientContext, oscore_sha_256,
}
use zephyr_uoscore_uedhoc.Context.Cose.{encoded}
use zephyr_uoscore_uedhoc.Crypto.{External, OscoreInfo}
use zephyr_uoscore_uedhoc.Crypto.Wrapper.{hkdf_sha_256}

abbrev pub max_info_len : ℕ
max_info_len = 50

-- "Key" and "IV"
abbrev pub type_name : DeriveType → Bytes
type_name key = b'K' ∷ b'e' ∷ b'y' ∷ []
type_name iv = b'I' ∷ b'V' ∷ []

abbrev pub type_len : DeriveType → ℕ
type_len key = 16
type_len iv = 13

-- `EMPTY_ARRAY`
abbrev pub empty_array : ByteArray
empty_array = record { len = 0; ptr = [] }

-- What the info structure is filled with.
unfoldable pub hkdf_info : ByteArray → ByteArray → ℕ → DeriveType → OscoreInfo
hkdf_info id id_context aead_alg type = record {
  id = id;
  id_context = if id_context.len == 0 then none else some id_context;
  alg_aead = aead_alg;
  type = type_name type;
  l = type_len type;
}

module _ (ex : External) where
  unfoldable pub oscore_create_hkdf_info :
      ByteArray → ByteArray → ℕ → DeriveType → ℕ → Result ByteArray
  oscore_create_hkdf_info id id_context aead_alg type out_len =
      encoded (ex.cbor_encode_oscore_info out_len (hkdf_info id id_context aead_alg type))

  -- `out` is an array of the context; its length stays.
  unfoldable pub derive : CommonContext → ByteArray → DeriveType → ByteArray → Result ByteArray
  unfolding oscore_create_hkdf_info
  derive cc id type out = do
    info ← oscore_create_hkdf_info id cc.id_context cc.aead_alg type max_info_len
    bytes ←
        (if cc.kdf == oscore_sha_256
          then hkdf_sha_256 ex cc.master_secret cc.master_salt info out.len
          else err oscore_unknown_hkdf)
    ok (record { len = out.len; ptr = bytes })

  unfoldable pub derive_common_iv : CommonContext → Result CommonContext
  unfolding derive
  derive_common_iv cc = do
    common_iv ← derive cc empty_array iv cc.common_iv
    ok (record cc { common_iv = common_iv })

  unfoldable pub derive_sender_key : CommonContext → SenderContext → Result SenderContext
  unfolding derive
  derive_sender_key cc sc = do
    sender_key ← derive cc sc.sender_id key sc.sender_key
    ok (record sc { sender_key = sender_key })

  unfoldable pub derive_recipient_key : CommonContext → RecipientContext → Result RecipientContext
  unfolding derive
  derive_recipient_key cc rc = do
    recipient_key ← derive cc rc.recipient_id key rc.recipient_key
    ok (record rc { recipient_key = recipient_key })
