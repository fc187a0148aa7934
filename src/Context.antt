-- ===== src/Context.antt =====
-- The security context and its operations: inc/oscore/security_context.h,
-- src/oscore/security_context.c and the files that it calls.
--
-- Functions that write the context take it and return it beside their result, also where they
-- fail, since what was written stays written.
pub mod Piv
pub mod PivLaws
pub mod Nonce
pub mod NonceLaws
pub mod NonceReuse
pub mod Cose
pub mod Derive
pub mod Update
use zephyr_uoscore_uedhoc.Prelude.{ℕ, List}
use zephyr_uoscore_uedhoc.Memory.{ByteArray, Result, ok, err, fault}

-- `enum AEAD_algorithm` (its only value is 10) and `enum hkdf` (its only value is 0); a
-- parameter may hold another number.
abbrev pub oscore_aes_ccm_16_64_128 : ℕ
oscore_aes_ccm_16_64_128 = 10

abbrev pub oscore_sha_256 : ℕ
oscore_sha_256 = 0

-- `enum dev_type`
pub data DevType : Type 0 where
  server client : DevType

-- `enum derive_type`
pub data DeriveType : Type 0 where
  key iv : DeriveType

-- `struct common_context`
pub record CommonContext : Type 0 where
  pub aead_alg : ℕ
  pub kdf : ℕ
  pub master_secret : ByteArray
  pub master_salt : ByteArray
  pub id_context : ByteArray
  pub common_iv : ByteArray

-- `struct sender_context`
pub record SenderContext : Type 0 where
  pub sender_id : ByteArray
  pub sender_key : ByteArray
  pub sender_seq_num : ℕ

-- `struct recipient_context`; the window's length is that of the list
pub record RecipientContext : Type 0 where
  pub recipient_id : ByteArray
  pub recipient_key : ByteArray
  pub replay_window : List ℕ

-- `struct req_resp_context`: each array is the content of the buffer of its own beside it
pub record ReqRespContext : Type 0 where
  pub nonce : ByteArray
  pub aad : ByteArray
  pub piv : ByteArray
  pub kid_context : ByteArray
  pub kid : ByteArray

-- `struct context`
pub record Context : Type 0 where
  pub rrc : ReqRespContext
  pub cc : CommonContext
  pub sc : SenderContext
  pub rc : RecipientContext

abbrev pub auth_tag_len : ℕ
auth_tag_len = 8

abbrev pub nonce_len : ℕ
nonce_len = 13

abbrev pub common_iv_len : ℕ
common_iv_len = 13

abbrev pub sender_key_len : ℕ
sender_key_len = 16

abbrev pub replay_window_len : ℕ
replay_window_len = 32

abbrev pub max_aad_len : ℕ
max_aad_len = 30

-- A function on the context.
abbrev pub Action : Type 0 → Type 0
Action A = Context → Result A × Context

module _ {A : Type 0} where
  abbrev pub pure : A → Action A
  pure a c = (ok a, c)

  -- A call that leaves the context alone.
  abbrev pub call : Result A → Action A
  call r c = (r, c)

  -- A call on members of the context.
  abbrev pub reads : (Context → Result A) → Action A
  reads f c = (f c, c)

infixl 5 ◌>>=◌ ◌>>◌
abbrev pub ◌>>=◌ : {A B : Type 0} → Action A → (A → Action B) → Action B
◌>>=◌ m f c =
    let (r, c') = m c in elim r [ ok a ↦ f a c' | err e ↦ (err e, c') | fault ↦ (fault, c') ]

abbrev pub ◌>>◌ : {B : Type 0} → Action (Unit {0}) → Action B → Action B
m >> k = m >>= λ _. k

abbrev pub modify : (Context → Context) → Action (Unit {0})
modify f c = (ok tt, f c)
