-- ===== src/Context/Update.antt =====
-- `context_update` and `oscore_context_init` of src/oscore/security_context.c.
use zephyr_uoscore_uedhoc.Prelude.{ℕ, List, if◌then◌else◌, not, replicate, ◌==◌}
use zephyr_uoscore_uedhoc.Memory.{
  ByteArray, err, array_equals, copy_array, oscore_invalid_algorithm_aead,
  oscore_invalid_algorithm_hkdf,
}
use zephyr_uoscore_uedhoc.Context.{
  Context, ◌>>=◌, ◌>>◌, Action, CommonContext, DevType, RecipientContext, SenderContext, call,
  client, common_iv_len, max_aad_len, nonce_len, oscore_aes_ccm_16_64_128, oscore_sha_256, pure,
  reads, replay_window_len, sender_key_len, server, modify,
}
use zephyr_uoscore_uedhoc.Coap.{CoapOption, max_kid_context_len, max_kid_len, max_piv_len}
use zephyr_uoscore_uedhoc.Context.Nonce.{create_nonce}
use zephyr_uoscore_uedhoc.Context.Cose.{create_aad}
use zephyr_uoscore_uedhoc.Context.Derive.{derive_common_iv, derive_recipient_key, derive_sender_key}
use zephyr_uoscore_uedhoc.Crypto.{External}

-- The writes to single members of the context.
abbrev pub set_piv : ByteArray → Context → Context
set_piv a c = record c { rrc = record (c.rrc) { piv = a } }

abbrev pub set_nonce : ByteArray → Context → Context
set_nonce a c = record c { rrc = record (c.rrc) { nonce = a } }

abbrev pub set_aad : ByteArray → Context → Context
set_aad a c = record c { rrc = record (c.rrc) { aad = a } }

abbrev pub set_kid_context : ByteArray → Context → Context
set_kid_context a c = record c { rrc = record (c.rrc) { kid_context = a } }

abbrev pub set_kid : ByteArray → Context → Context
set_kid a c = record c { rrc = record (c.rrc) { kid = a } }

abbrev pub set_id_context : ByteArray → Context → Context
set_id_context a c = record c { cc = record (c.cc) { id_context = a } }

abbrev pub set_cc : CommonContext → Context → Context
set_cc a c = record c { cc = a }

abbrev pub set_sc : SenderContext → Context → Context
set_sc a c = record c { sc = a }

abbrev pub set_rc : RecipientContext → Context → Context
set_rc a c = record c { rc = a }

-- The copies into the request-response context.
unfoldable pub update_piv : ByteArray → Action (Unit {0})
update_piv new_piv = do
  piv ← reads (λ c. copy_array c.rrc.piv max_piv_len new_piv)
  modify (set_piv piv)

unfoldable pub copy_kid_context : ByteArray → (Context → ℕ) → Action (Unit {0})
copy_kid_context new_kid_context size = do
  kid_context ← reads (λ c. copy_array c.rrc.kid_context (size c) new_kid_context)
  modify (set_kid_context kid_context)

unfoldable pub copy_kid : ByteArray → Action (Unit {0})
copy_kid id = do kid ← reads (λ c. copy_array c.rrc.kid c.rrc.kid.len id); modify (set_kid kid)

-- The ID context is as large a buffer as its length.
unfoldable pub update_id_context : ByteArray → Action (Unit {0})
update_id_context new_kid_context = do
  id_context ← reads (λ c. copy_array c.cc.id_context c.cc.id_context.len new_kid_context)
  modify (set_id_context id_context)

module _ (ex : External) where
  unfoldable pub update_common_iv : Action (Unit {0})
  update_common_iv = do cc ← reads (λ c. derive_common_iv ex c.cc); modify (set_cc cc)

  unfoldable pub update_sender_key : Action (Unit {0})
  update_sender_key = do sc ← reads (λ c. derive_sender_key ex c.cc c.sc); modify (set_sc sc)

  unfoldable pub update_recipient_key : Action (Unit {0})
  update_recipient_key = do rc ← reads (λ c. derive_recipient_key ex c.cc c.rc); modify (set_rc rc)

  -- The part of a server: a new KID context changes the ID context and the keys.
  unfoldable pub update_keys : ByteArray → Action (Unit {0})
  unfolding copy_kid_context update_id_context update_common_iv update_sender_key
      update_recipient_key
  update_keys new_kid_context = do
    same ← reads (λ c. array_equals c.cc.id_context new_kid_context)
    let rekey = (do
      copy_kid_context new_kid_context (λ _. max_kid_context_len)
      update_id_context new_kid_context
      update_common_iv
      update_sender_key
      update_recipient_key)
    if same then pure tt else rekey

  -- The part of both: the nonce and the AAD.
  unfoldable pub update_nonce_aad : List CoapOption → Action (Unit {0})
  update_nonce_aad options = do
    nonce ← reads (λ c. create_nonce c.rrc.kid c.rrc.piv c.cc.common_iv c.rrc.nonce)
    modify (set_nonce nonce)
    aad ← reads (λ c. create_aad ex options c.cc.aead_alg c.rrc.kid c.rrc.piv c.rrc.aad.len)
    modify (set_aad aad)

  unfoldable pub context_update :
      DevType → List CoapOption → ByteArray → ByteArray → Action (Unit {0})
  unfolding update_piv update_keys update_nonce_aad
  context_update server options new_piv new_kid_context = do
    update_piv new_piv
    update_keys new_kid_context
    update_nonce_aad options
  context_update client options new_piv new_kid_context = update_nonce_aad options

-- `struct oscore_init_params`
pub record OscoreInitParams : Type 0 where
  pub dev_type : DevType
  pub master_secret : ByteArray
  pub sender_id : ByteArray
  pub recipient_id : ByteArray
  pub id_context : ByteArray
  pub master_salt : ByteArray
  pub aead_alg : ℕ
  pub hkdf : ℕ

abbrev with_len : ℕ → ByteArray → ByteArray
with_len n a = record a { len = n }

-- The algorithm is stored before the other parameter is checked.
abbrev set_aead : Context → Context
set_aead c = record c { cc = record (c.cc) { aead_alg = oscore_aes_ccm_16_64_128 } }

-- The common context before its IV is derived.
abbrev fill_cc : OscoreInitParams → Context → Context
fill_cc p c = record c {
  cc = record {
    aead_alg = oscore_aes_ccm_16_64_128;
    kdf = oscore_sha_256;
    master_secret = p.master_secret;
    master_salt = p.master_salt;
    id_context = p.id_context;
    common_iv = with_len common_iv_len c.cc.common_iv;
  };
}

abbrev fill_rc : OscoreInitParams → Context → Context
fill_rc p c = record c {
  rc = record {
    recipient_id = p.recipient_id;
    recipient_key = with_len sender_key_len c.rc.recipient_key;
    replay_window = replicate replay_window_len 0;
  };
}

abbrev fill_sc : OscoreInitParams → Context → Context
fill_sc p c = record c {
  sc = record {
    sender_id = p.sender_id;
    sender_key = with_len sender_key_len c.sc.sender_key;
    sender_seq_num = c.sc.sender_seq_num;
  };
}

abbrev reset_seq_num : Context → Context
reset_seq_num c = record c { sc = record (c.sc) { sender_seq_num = 0 } }

-- The lengths of the request-response buffers.
abbrev fill_rrc : Context → Context
fill_rrc c = record c {
  rrc = record {
    nonce = with_len nonce_len c.rrc.nonce;
    aad = with_len max_aad_len c.rrc.aad;
    piv = with_len max_piv_len c.rrc.piv;
    kid_context = with_len max_kid_context_len c.rrc.kid_context;
    kid = with_len max_kid_len c.rrc.kid;
  };
}

-- The identifiers of requests; only a client has its KID context from the parameters.
unfoldable pub init_ids : DevType → OscoreInitParams → Action (Unit {0})
unfolding copy_kid_context copy_kid
init_ids client p = do
  copy_kid_context p.id_context (λ c. c.rrc.kid_context.len)
  copy_kid p.sender_id
init_ids server p = copy_kid p.recipient_id

module _ (ex : External) where
  unfoldable pub init_keys : OscoreInitParams → Action (Unit {0})
  unfolding update_common_iv update_sender_key update_recipient_key init_ids
  init_keys p = do
    modify (fill_cc p)
    update_common_iv ex
    modify (fill_rc p)
    update_recipient_key ex
    modify (fill_sc p)
    update_sender_key ex
    modify reset_seq_num
    modify fill_rrc
    init_ids p.dev_type p

  -- The context before the call gives the buffers their content.
  unfoldable pub oscore_context_init : OscoreInitParams → Action (Unit {0})
  unfolding init_keys
  oscore_context_init p =
      if not (p.aead_alg == oscore_aes_ccm_16_64_128)
      then call (err oscore_invalid_algorithm_aead)
      else if not (p.hkdf == oscore_sha_256)
      then (modify set_aead >> call (err oscore_invalid_algorithm_hkdf))
      else init_keys p
