-- ===== src/Edhoc/Initiator.antt =====
-- The initiator: src/edhoc/initiator.c.
use zephyr_uoscore_uedhoc.Prelude.{
  ℕ, ◌==◌, [], ◌∷◌, none, some, length, if◌then◌else◌, sub32, drop, Bool, List, false, u32, ◌+◌,
  Option,
}
use zephyr_uoscore_uedhoc.Memory.{
  Bytes, of_bytes, Result, ok, ◌>>=◌, ◌>>◌, copy_s, check_buffer_size, read,
}
use zephyr_uoscore_uedhoc.Crypto.Wrapper.{expect, hkdf_extract}
use zephyr_uoscore_uedhoc.Edhoc.Suites.{
  Suite, Cx, c_x_int, c_x_bstr, c_x_set_bstr, authentication_type_get, get_ecdh_pk_len, get_suite,
}
use zephyr_uoscore_uedhoc.Edhoc.Coders.{
  EdhocExternal, CxString, id_int, id_bstr, SuitesI, suites_int, suites_list, Message1,
}
use zephyr_uoscore_uedhoc.Edhoc.Wrapper.{shared_secret_derive}
use zephyr_uoscore_uedhoc.Edhoc.Transcript.{
  th2_calculate, encoding_overhead, th3_calculate, th4_calculate,
}
use zephyr_uoscore_uedhoc.Edhoc.Authentication.{
  Statement, decode_byte_string, encode_byte_string, signature_or_mac_generate,
  signature_or_mac_verify,
}
use zephyr_uoscore_uedhoc.Edhoc.Ciphertext.{
  ciphertext_default_size, ciphertext2, ciphertext3, ciphertext4, ciphertext_decrypt_split,
  ciphertext_gen,
}
use zephyr_uoscore_uedhoc.Edhoc.Messages.{
  RuntimeContext, InitiatorContext, Secrets, msg_1_default_size, Transport, flag_value, last_suite,
  msg_2_default_size, runtime_context_init,
}
use zephyr_uoscore_uedhoc.Edhoc.Credentials.{OtherPartyCred, retrieve_cred}
use zephyr_uoscore_uedhoc.Edhoc.Keys.{prk_derive}

-- "MAC_2" and "MAC_3"
abbrev pub mac_2 : Bytes
mac_2 = 77 ∷ 65 ∷ 67 ∷ 95 ∷ 50 ∷ []

abbrev pub mac_3 : Bytes
mac_3 = 77 ∷ 65 ∷ 67 ∷ 95 ∷ 51 ∷ []

-- `C_R_DEFAULT_SIZE`
abbrev pub c_r_default_size : ℕ
c_r_default_size = 1

-- What `msg2_parse` writes
pub record ParsedMsg2 : Type 0 where
  pub g_y : Bytes
  pub c_r : Cx
  pub ciphertext_2 : Bytes

-- The transcript hash TH_2 and the key PRK_2e
pub record Exchange : Type 0 where
  pub th2 : Bytes
  pub prk_2e : Bytes

-- The key that rests on the other party's authentication, and the data sent with it
pub record Authentic : Type 0 where
  pub prk : Bytes
  pub ead : Bytes

-- Message 3, and the secrets that go with it
pub record Response : Type 0 where
  pub msg3 : Bytes
  pub secrets : Secrets

-- What a run of the initiator gives its caller
pub record InitiatorRun : Type 0 where
  pub secrets : Secrets
  pub ead_2 : Bytes
  pub ead_4 : Option Bytes

-- What `msg3_gen` writes beside the state: the secrets and the other party's data
pub record Msg3 : Type 0 where
  pub rc : RuntimeContext
  pub secrets : Secrets
  pub ead_2 : Bytes

-- An identifier of the context, as a coder's struct has it
abbrev pub cx_string : Cx → CxString
cx_string (c_x_int n) = id_int n
cx_string (c_x_bstr b) = id_bstr (of_bytes b)

-- A decoded identifier, into a buffer of `cap` bytes
abbrev pub cx_of_string : ℕ → CxString → Result Cx
cx_of_string cap (id_int n) = ok (c_x_int n)
cx_of_string cap (id_bstr s) = c_x_set_bstr cap s.ptr s.len

-- With one suite the number, with more a list. With none the struct keeps what it held, and
-- nothing is known of it: here the empty list.
abbrev pub suites_message : Bytes → SuitesI
suites_message [] = suites_list []
suites_message (s ∷ []) = suites_int s
suites_message (s ∷ t ∷ suites) = suites_list (s ∷ t ∷ suites)

unfoldable pub message_1_of : InitiatorContext → Message1
message_1_of c = record {
  method = c.method;
  suites_i = suites_message c.suites_i;
  g_x = of_bytes c.g_x;
  c_i = cx_string c.c_i;
  ead_1 = if length c.ead_1 == 0 then none else some (of_bytes c.ead_1);
}

-- What message 2 authenticates
abbrev pub statement_2 : Bytes → Bytes → Bytes → Bytes → Bytes → Statement
statement_2 prk th id_cred cred ead = record {
  prk = prk;
  th = th;
  id_cred = id_cred;
  cred = cred;
  ead = ead;
  mac_label = mac_2;
}

-- What message 3 authenticates
abbrev pub statement_3 : Bytes → Bytes → Bytes → Bytes → Bytes → Statement
statement_3 prk th id_cred cred ead = record {
  prk = prk;
  th = th;
  id_cred = id_cred;
  cred = cred;
  ead = ead;
  mac_label = mac_3;
}

module _ (ex : EdhocExternal) where
  unfoldable pub msg2_parse : Bytes → ℕ → Result ParsedMsg2
  msg2_parse msg2 g_y_len = do
    m ← expect (ex.cbor_decode_m2 msg2)
    g_y ← copy_s g_y_len m.g_y_ciphertext_2.ptr g_y_len
    ciphertext ←
        copy_s ciphertext_default_size (drop g_y_len m.g_y_ciphertext_2.ptr)
          (sub32 m.g_y_ciphertext_2.len g_y_len)
    c_r ← cx_of_string c_r_default_size m.c_r
    ok (record { g_y = g_y; c_r = c_r; ciphertext_2 = ciphertext })

  unfoldable pub msg1_gen : InitiatorContext → RuntimeContext → Result RuntimeContext
  msg1_gen c rc = do
    bytes ← expect (ex.cbor_encode_message_1 msg_1_default_size (message_1_of c))
    ok (record rc { msg1 = bytes })

  -- The first part of `msg3_gen`: the ephemeral secret
  unfoldable pub initiator_exchange :
      InitiatorContext → Suite → Bytes → ParsedMsg2 → Result Exchange
  initiator_exchange c suite msg1 m = do
    g_xy ← shared_secret_derive ex suite.edhoc_ecdh c.x m.g_y
    th2 ← th2_calculate ex suite.edhoc_hash msg1 m.g_y m.c_r
    prk_2e ← hkdf_extract ex.crypto (of_bytes []) (of_bytes g_xy)
    ok (record { th2 = th2; prk_2e = prk_2e })

  -- The second part: the authenticity of the responder
  unfoldable pub initiator_authenticate :
      InitiatorContext
      → Suite
      → Bool
      → List OtherPartyCred
      → ℕ
      → ParsedMsg2
      → Exchange
      → Result Authentic
  initiator_authenticate c suite static_dh_r cred_r_array ead_2_len m e = do
    p ←
        ciphertext_decrypt_split ex ciphertext2 suite 600 128 ead_2_len e.prk_2e e.th2
          m.ciphertext_2
    id_cred_r ← read p.id_cred_x.len p.id_cred_x.ptr
    r ← retrieve_cred ex static_dh_r cred_r_array id_cred_r
    prk_3e2m ← prk_derive ex static_dh_r suite e.prk_2e r.g c.x
    signature_or_mac_verify ex (statement_2 prk_3e2m e.th2 id_cred_r r.cred p.ad) static_dh_r suite
        r.pk p.sign_or_mac
    ok (record { prk = prk_3e2m; ead = p.ad })

  -- The third part: message 3
  unfoldable pub initiator_respond :
      InitiatorContext → Suite → Bool → ParsedMsg2 → Exchange → Authentic → Result Response
  initiator_respond c suite static_dh_i m e a = do
    th3 ← th3_calculate ex suite.edhoc_hash e.th2 m.ciphertext_2
    prk_4x3m ← prk_derive ex static_dh_i suite a.prk m.g_y c.i
    sign_or_mac_3 ←
        signature_or_mac_generate ex (statement_3 prk_4x3m th3 c.id_cred_i c.cred_i c.ead_3)
          static_dh_i suite c.sk_i c.pk_i
    ciphertext_3 ← ciphertext_gen ex ciphertext3 suite c.id_cred_i sign_or_mac_3 c.ead_3 a.prk th3
    check_buffer_size ciphertext_default_size (u32 (length ciphertext_3 + encoding_overhead))
    msg3 ← encode_byte_string ex ciphertext_3 msg_2_default_size
    th4 ← th4_calculate ex suite.edhoc_hash th3 ciphertext_3
    ok (record { msg3 = msg3; secrets = record { prk_4x3m = prk_4x3m; th4 = th4 } })

  unfoldable pub msg3_gen :
      InitiatorContext → RuntimeContext → List OtherPartyCred → ℕ → Result Msg3
  msg3_gen c rc cred_r_array ead_2_len = do
    label ← last_suite c.suites_i
    suite ← get_suite label
    let flags = authentication_type_get c.method (some false) (some false)
    static_dh_i ← flag_value flags.0
    static_dh_r ← flag_value flags.1
    m ← msg2_parse rc.msg2 (get_ecdh_pk_len suite.edhoc_ecdh)
    e ← initiator_exchange c suite rc.msg1 m
    a ← initiator_authenticate c suite static_dh_r cred_r_array ead_2_len m e
    r ← initiator_respond c suite static_dh_i m e a
    ok (record {
      rc = record rc { suite = suite; msg3 = r.msg3 };
      secrets = r.secrets;
      ead_2 = a.ead;
    })

  -- The external authorization data of message 4
  unfoldable pub msg4_process : RuntimeContext → ℕ → Secrets → Result Bytes
  msg4_process rc ead_4_len s = do
    ciphertext_4 ← decode_byte_string ex rc.msg4 ciphertext_default_size
    p ← ciphertext_decrypt_split ex ciphertext4 rc.suite 0 0 ead_4_len s.prk_4x3m s.th4 ciphertext_4
    ok p.ad

  -- The end of a run: message 4 is received where the context asks for it. Without one neither the
  -- caller's array for EAD_4 nor its length is written: `none`.
  unfoldable pub initiator_last :
      Bool → Transport → List Bytes → RuntimeContext → ℕ → Secrets → Result (Option Bytes)
  initiator_last msg4 t sent rc ead_4_len s =
      if msg4
      then (do
        bytes ← t.rx sent msg_2_default_size
        ead_4 ← msg4_process (record rc { msg4 = bytes }) ead_4_len s
        ok (some ead_4))
      else ok none

  unfoldable pub edhoc_initiator_run :
      InitiatorContext → List OtherPartyCred → ℕ → ℕ → Transport → Result InitiatorRun
  edhoc_initiator_run c cred_r_array ead_2_len ead_4_len t = do
    rc ← msg1_gen c runtime_context_init
    t.tx [] rc.msg1
    msg2 ← t.rx (rc.msg1 ∷ []) msg_2_default_size
    m ← msg3_gen c (record rc { msg2 = msg2 }) cred_r_array ead_2_len
    t.tx (rc.msg1 ∷ []) m.rc.msg3
    ead_4 ← initiator_last c.msg4 t (m.rc.msg3 ∷ rc.msg1 ∷ []) m.rc ead_4_len m.secrets
    ok (record { secrets = m.secrets; ead_2 = m.ead_2; ead_4 = ead_4 })
