-- ===== src/Edhoc/Messages.antt =====
-- The state of a run, src/edhoc/runtime_context.c and inc/edhoc/runtime_context.h, the contexts
-- of inc/edhoc.h, and the transport that a run is given.
use zephyr_uoscore_uedhoc.Prelude.{ℕ, Bool, false, List, [], ◌∷◌, Option, none, some}
use zephyr_uoscore_uedhoc.Memory.{Bytes, Result, ok, fault}
use zephyr_uoscore_uedhoc.Edhoc.Suites.{Suite, Cx, other_aead, other_hash, other_ecdh, other_sign}

-- `struct runtime_context`: each message is the bytes of its length. The lengths of `th3` and
-- `PRK_3e2m` stay 32.
pub record RuntimeContext : Type 0 where
  pub msg1 : Bytes
  pub msg2 : Bytes
  pub msg3 : Bytes
  pub msg4 : Bytes
  pub suite : Suite
  pub th3 : Bytes
  pub prk_3e2m : Bytes
  pub static_dh_i : Bool

-- `struct runtime_context rc = { 0 }`: no enumerator of the suite has the value 0. The messages
-- are written before they are read.
abbrev pub zero_suite : Suite
zero_suite = record {
  suite_label = 0;
  edhoc_aead = other_aead;
  edhoc_hash = other_hash;
  edhoc_mac_len_static_dh = 0;
  edhoc_ecdh = other_ecdh;
  edhoc_sign = other_sign;
  app_aead = other_aead;
  app_hash = other_hash;
}

abbrev pub runtime_context_init : RuntimeContext
runtime_context_init = record {
  msg1 = [];
  msg2 = [];
  msg3 = [];
  msg4 = [];
  suite = zero_suite;
  th3 = [];
  prk_3e2m = [];
  static_dh_i = false;
}

-- `MSG_1_DEFAULT_SIZE`, and the size of the other three
abbrev pub msg_1_default_size : ℕ
msg_1_default_size = 255

abbrev pub msg_2_default_size : ℕ
msg_2_default_size = 700

-- `struct edhoc_responder_context`
pub record ResponderContext : Type 0 where
  pub msg4 : Bool
  pub c_r : Cx
  pub suites_r : Bytes
  pub g_y : Bytes
  pub y : Bytes
  pub g_r : Bytes
  pub r : Bytes
  pub ead_2 : Bytes
  pub ead_4 : Bytes
  pub id_cred_r : Bytes
  pub cred_r : Bytes
  pub sk_r : Bytes
  pub pk_r : Bytes

-- `struct edhoc_initiator_context`
pub record InitiatorContext : Type 0 where
  pub msg4 : Bool
  pub c_i : Cx
  pub method : ℕ
  pub suites_i : Bytes
  pub ead_1 : Bytes
  pub ead_3 : Bytes
  pub id_cred_i : Bytes
  pub cred_i : Bytes
  pub g_x : Bytes
  pub x : Bytes
  pub g_i : Bytes
  pub i : Bytes
  pub sk_i : Bytes
  pub pk_i : Bytes

-- The key and the transcript hash that a run ends with
pub record Secrets : Type 0 where
  pub prk_4x3m : Bytes
  pub th4 : Bytes

-- The callbacks `tx` and `rx` of a run: what they return may depend on the messages sent so far.
-- `rx` is given the size of the buffer.
pub record Transport : Type 0 where
  pub tx : List Bytes → Bytes → Result (Unit {0})
  pub rx : List Bytes → ℕ → Result Bytes

-- The last of the suites, `suites.ptr[suites.len - 1]`
unfoldable pub last_suite : Bytes → Result ℕ
last_suite [] = fault
last_suite (s ∷ []) = ok s
last_suite (s ∷ t ∷ suites) = last_suite (t ∷ suites)

-- A flag is read.
abbrev pub flag_value : Option Bool → Result Bool
flag_value none = fault
flag_value (some b) = ok b
