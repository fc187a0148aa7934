-- ===== src/Edhoc/Plaintext.antt =====
-- The plaintexts of messages 2 and 3: src/edhoc/plaintext_decode.c, and `id_cred2kid` and
-- `plaintext_encode` of src/edhoc/plaintext_encode.c.
use zephyr_uoscore_uedhoc.Prelude.{
  ℕ, ◌+◌, ◌*◌, ◌/◌, ◌%◌, ◌==◌, Option, none, some, length, [], ◌∷◌, if◌then◌else◌, u32, sub32, map,
}
use zephyr_uoscore_uedhoc.Memory.{
  Bytes, ByteArray, of_bytes, Result, ok, fault, ◌>>=◌, copy_s, append_s, store,
}
use zephyr_uoscore_uedhoc.Crypto.Wrapper.{expect}
use zephyr_uoscore_uedhoc.Edhoc.Coders.{
  EdhocExternal, IdCredMap, IdCredX, id_map, id_kid_bstr, id_kid_int,
}
use zephyr_uoscore_uedhoc.Edhoc.Authentication.{encode_byte_string}

-- `PLAINTEXT_DEFAULT_SIZE`
abbrev pub plaintext_default_size : ℕ
plaintext_default_size = 650

-- `KID_DEFAULT_SIZE`
abbrev pub kid_default_size : ℕ
kid_default_size = 8

-- `map = { 0 }`
abbrev pub no_entries : IdCredMap
no_entries = record {
  kid = none;
  x5bag = none;
  x5chain = none;
  x5t = none;
  x5u = none;
  c5b = none;
  c5c = none;
  c5t = none;
  c5u = none;
}

-- The labels that `id_cred_x_encode` is called with
pub data IdCredLabel : Type 0 where
  label_kid label_x5chain label_x5t : IdCredLabel

-- The bytes of an `int`, in little endian order, and the `int32_t` at a pointer
unfoldable pub int_bytes : ℕ → Bytes
int_bytes n = n % 256 ∷ n / 256 % 256 ∷ n / 65536 % 256 ∷ n / 16777216 % 256 ∷ []

unfoldable pub int_at : Bytes → Result ℕ
int_at (a ∷ b ∷ c ∷ d ∷ _) = ok (a + b * 256 + c * 65536 + d * 16777216)
int_at _ = fault

-- The map of one entry
abbrev pub id_cred_x_map : IdCredLabel → ℕ → ByteArray → Result IdCredMap
id_cred_x_map label_kid algo id = do n ← int_at id.ptr; ok (record no_entries { kid = some n })
id_cred_x_map label_x5chain algo id = ok (record no_entries { x5chain = some id })
id_cred_x_map label_x5t algo id = ok (record no_entries { x5t = some (algo, id) })

-- What `plaintext_split` writes; an ID_CRED_x that was not written has bytes that nothing knows.
pub record SplitPlaintext : Type 0 where
  pub id_cred_x : ByteArray
  pub sign_or_mac : Bytes
  pub ad : Bytes

module _ (ex : EdhocExternal) where
  unfoldable pub id_cred_x_encode : IdCredLabel → ℕ → ByteArray → ℕ → Result ByteArray
  id_cred_x_encode label algo id id_cred_x_len = do
    map ← id_cred_x_map label algo id
    bytes ← expect (ex.cbor_encode_id_cred_x_map id_cred_x_len map)
    ok (of_bytes bytes)

  -- Each present entry of the map that is a chain or a hash is written over the buffer.
  abbrev pub split_x5chain : Option ByteArray → ByteArray → Result ByteArray
  split_x5chain none out = ok out
  split_x5chain (some chain) out = id_cred_x_encode label_x5chain 0 chain out.len

  abbrev pub split_x5t : Option (ℕ × ByteArray) → ByteArray → Result ByteArray
  split_x5t none out = ok out
  split_x5t (some (algo, digest)) out = id_cred_x_encode label_x5t algo digest out.len

  abbrev pub split_id_cred : IdCredX → ByteArray → Result ByteArray
  split_id_cred (id_map m) out = do out' ← split_x5chain m.x5chain out; split_x5t m.x5t out'
  split_id_cred (id_kid_bstr s) out = id_cred_x_encode label_kid 0 s out.len
  split_id_cred (id_kid_int n) out =
      id_cred_x_encode label_kid 0 (record { len = 1; ptr = int_bytes n }) out.len

  abbrev pub split_ad : ℕ → Option ByteArray → Result Bytes
  split_ad ad_len none = ok []
  split_ad ad_len (some ad) = copy_s ad_len ad.ptr ad.len

  -- Into buffers of `id_cred_x_len`, `sign_or_mac_len` and `ad_len` bytes.
  unfoldable pub plaintext_split : Bytes → ℕ → ℕ → ℕ → Result SplitPlaintext
  plaintext_split ptxt id_cred_x_len sign_or_mac_len ad_len = do
    p ← expect (ex.cbor_decode_plaintext ptxt)
    id_cred_x ← split_id_cred p.id_cred_x (record { len = id_cred_x_len; ptr = [] })
    sign_or_mac ← copy_s sign_or_mac_len p.sgn_or_mac_x.ptr p.sgn_or_mac_x.len
    ad ← split_ad ad_len p.ad_x
    ok (record { id_cred_x = id_cred_x; sign_or_mac = sign_or_mac; ad = ad })

  abbrev pub kid_bytes : ℕ → Option ℕ → Result Bytes
  kid_bytes kid_len none = ok []
  kid_bytes kid_len (some n) = expect (ex.cbor_encode_int_type_i kid_len n)

  -- The key identifier's encoding, which is empty where ID_CRED_x has none.
  unfoldable pub id_cred2kid : Bytes → ℕ → Result Bytes
  id_cred2kid id_cred kid_len = do
    map ← expect (ex.cbor_decode_id_cred_x_map id_cred)
    kid_bytes kid_len map.kid

  -- `plaintext_encode`, into a buffer of `plaintext_len` bytes
  unfoldable pub plaintext_encode : Bytes → Bytes → Bytes → ℕ → Result Bytes
  plaintext_encode id_cred sgn_or_mac ad plaintext_len = do
    kid ← id_cred2kid id_cred kid_default_size
    let id = if length kid == 0 then id_cred else kid
    a ← append_s plaintext_len [] plaintext_len id (length id)
    enc ← encode_byte_string ex sgn_or_mac (u32 (length sgn_or_mac + 2))
    b ← store plaintext_len a enc
    append_s plaintext_len b (sub32 (sub32 plaintext_len (length id)) (length enc)) ad (length ad)
