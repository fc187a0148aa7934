-- ===== src/Edhoc/Responder.antt =====
-- The responder: src/edhoc/responder.c.
use zephyr_uoscore_uedhoc.Prelude.{
  ℕ, zero, suc, ◌+◌, ◌==◌, Bool, true, false, List, [], ◌∷◌, Option, none, some, length,
  if◌then◌else◌, u8, u32, ltb, map, get_elem?,
}
use zephyr_uoscore_uedhoc.Memory.{
  Bytes, ByteArray, of_bytes, Result, ok, err, fault, ◌>>=◌, ◌>>◌, read, copy_s, store,
  check_buffer_size, suites_i_list_to_long, error_message_sent,
}
use zephyr_uoscore_uedhoc.Crypto.Wrapper.{expect, hkdf_extract}
use zephyr_uoscore_uedhoc.Edhoc.Suites.{
  Suite, Cx, c_x_int, c_x_set_bstr, get_suite, authentication_type_get,
}
use zephyr_uoscore_uedhoc.Edhoc.Coders.{
  EdhocExternal, CxString, id_int, id_bstr, SuitesI, suites_int, suites_list,
}
use zephyr_uoscore_uedhoc.Edhoc.Wrapper.{shared_secret_derive}
use zephyr_uoscore_uedhoc.Edhoc.Keys.{prk_derive}
use zephyr_uoscore_uedhoc.Edhoc.Transcript.{th2_calculate, th3_calculate, th4_calculate}
use zephyr_uoscore_uedhoc.Edhoc.Authentication.{
  encode_byte_string, decode_byte_string, signature_or_mac_generate, signature_or_mac_verify,
}
use zephyr_uoscore_uedhoc.Edhoc.Ciphertext.{
  ciphertext2, ciphertext3, ciphertext4, ciphertext_gen, ciphertext_decrypt_split,
  ciphertext_default_size,
}
use zephyr_uoscore_uedhoc.Edhoc.Credentials.{OtherPartyCred, retrieve_cred}
use zephyr_uoscore_uedhoc.Edhoc.Messages.{
  RuntimeContext, runtime_context_init, ResponderContext, Secrets, Transport, last_suite,
  flag_value, msg_1_default_size, msg_2_default_size,
}
use zephyr_uoscore_uedhoc.Edhoc.Initiator.{Exchange, cx_string, statement_2, statement_3}

-- `sizeof(suites_i)`
abbrev pub suites_i_size : ℕ
suites_i_size = 5

-- `G_X_DEFAULT_SIZE`
abbrev pub g_x_default_size : ℕ
g_x_default_size = 33

-- `C_I_DEFAULT_SIZE`
abbrev pub c_i_default_size : ℕ
c_i_default_size = 8

-- `G_Y_DEFAULT_SIZE + CIPHERTEXT2_DEFAULT_SIZE`
abbrev pub g_y_ciphertext_2_size : ℕ
g_y_ciphertext_2_size = 683

-- What `msg1_parse` writes. Without EAD_1 it writes neither the caller's array nor its length, which
-- stays the capacity: `none`.
pub record ParsedMsg1 : Type 0 where
  pub method : ℕ
  pub suites_i : Bytes
  pub g_x : Bytes
  pub c_i : Cx
  pub ead_1 : Option Bytes

-- The suites, into an array of `cap` bytes
abbrev pub suites_of_message : ℕ → SuitesI → Result Bytes
suites_of_message cap (suites_int s) = ok (u8 s ∷ [])
suites_of_message cap (suites_list l) =
    if ltb cap (length l) then err suites_i_list_to_long else ok (map u8 l)

-- C_I, whose string is copied with the length 0
abbrev pub parsed_c_i : CxString → Result Cx
parsed_c_i (id_int n) = ok (c_x_int n)
parsed_c_i (id_bstr s) = c_x_set_bstr c_i_default_size s.ptr 0

-- EAD_1, into an array of `cap` bytes
abbrev pub parsed_ead_1 : ℕ → Option ByteArray → Result (Option Bytes)
parsed_ead_1 cap none = ok none
parsed_ead_1 cap (some ead) = do bytes ← copy_s cap ead.ptr ead.len; ok (some bytes)

-- One round of the loop of `selected_suite_is_supported`, on the suite read
abbrev pub suite_round : Option ℕ → ℕ → Option (Result Bool) → Option (Result Bool)
suite_round none selected rest = some fault
suite_round (some s) selected rest = if s == selected then some (ok true) else rest

-- The loop from the `uint8_t` counter `i` on, for `fuel` rounds; `none` where it has not ended
-- by then
unfoldable pub suite_loop : ℕ → ℕ → ℕ → Bytes → Option (Result Bool)
suite_loop zero i selected suites_r = none
suite_loop (suc fuel) i selected suites_r =
    let rest = suite_loop fuel (u8 (i + 1)) selected suites_r in
    if ltb i (length suites_r)
    then suite_round (get_elem? suites_r i) selected rest
    else some (ok false)

-- A loop that has not ended after 256 rounds never ends: there is no result then.
abbrev pub loop_result {ℓ} : {A : Type ℓ} → Option (Result A) → Result A
loop_result none = fault
loop_result (some r) = r

unfoldable pub selected_suite_is_supported : ℕ → Bytes → Result Bool
selected_suite_is_supported selected suites_r = loop_result (suite_loop 257 0 selected suites_r)

-- What the second part of `msg2_gen` writes
pub record Message2 : Type 0 where
  pub prk_3e2m : Bytes
  pub msg2 : Bytes
  pub th3 : Bytes

-- What `msg2_gen` writes
pub record Msg2 : Type 0 where
  pub rc : RuntimeContext
  pub ead_1 : Option Bytes

-- What `msg3_process` writes
pub record ProcessedMsg3 : Type 0 where
  pub secrets : Secrets
  pub ead_3 : Bytes

-- What a run of the responder gives its caller
pub record ResponderRun : Type 0 where
  pub secrets : Secrets
  pub ead_1 : Option Bytes
  pub ead_3 : Bytes

module _ (ex : EdhocExternal) where
  unfoldable pub msg1_parse : Bytes → ℕ → Result ParsedMsg1
  msg1_parse msg1 ead_1_len = do
    m ← expect (ex.cbor_decode_message_1 msg1)
    suites_i ← suites_of_message suites_i_size m.suites_i
    g_x ← copy_s g_x_default_size m.g_x.ptr m.g_x.len
    c_i ← parsed_c_i m.c_i
    ead_1 ← parsed_ead_1 ead_1_len m.ead_1
    ok (record { method = m.method; suites_i = suites_i; g_x = g_x; c_i = c_i; ead_1 = ead_1 })

  unfoldable pub msg2_encode : Bytes → Cx → Bytes → Result Bytes
  msg2_encode g_y c_r ciphertext_2 = do
    check_buffer_size g_y_ciphertext_2_size (u32 (length g_y + length ciphertext_2))
    a ← store g_y_ciphertext_2_size [] g_y
    b ← store g_y_ciphertext_2_size a ciphertext_2
    expect (
        ex.cbor_encode_m2 msg_2_default_size
          (record { g_y_ciphertext_2 = of_bytes b; c_r = cx_string c_r }))

  -- The first part of `msg2_gen`: the suite, once the selected one is supported
  unfoldable pub responder_suite : ResponderContext → ParsedMsg1 → Result Suite
  responder_suite c p = do
    selected ← last_suite p.suites_i
    supported ← selected_suite_is_supported selected c.suites_r
    (if supported then get_suite selected else err error_message_sent)

  -- The second part: the ephemeral secret
  unfoldable pub responder_exchange : ResponderContext → Suite → Bytes → Bytes → Result Exchange
  responder_exchange c suite msg1 g_x = do
    th2 ← th2_calculate ex suite.edhoc_hash msg1 c.g_y c.c_r
    g_xy ← shared_secret_derive ex suite.edhoc_ecdh c.y g_x
    prk_2e ← hkdf_extract ex.crypto (of_bytes []) (of_bytes g_xy)
    ok (record { th2 = th2; prk_2e = prk_2e })

  -- The third part: message 2
  unfoldable pub responder_respond :
      ResponderContext → Suite → Option Bool → Bytes → Exchange → Result Message2
  responder_respond c suite static_dh g_x e = do
    static_dh_r ← flag_value static_dh
    prk_3e2m ← prk_derive ex static_dh_r suite e.prk_2e g_x c.r
    sign_or_mac_2 ←
        signature_or_mac_generate ex (statement_2 prk_3e2m e.th2 c.id_cred_r c.cred_r c.ead_2)
          static_dh_r suite c.sk_r c.pk_r
    ciphertext_2 ←
        ciphertext_gen ex ciphertext2 suite c.id_cred_r sign_or_mac_2 c.ead_2 e.prk_2e e.th2
    msg2 ← msg2_encode c.g_y c.c_r ciphertext_2
    th3 ← th3_calculate ex suite.edhoc_hash e.th2 ciphertext_2
    ok (record { prk_3e2m = prk_3e2m; msg2 = msg2; th3 = th3 })

  unfoldable pub msg2_gen : ResponderContext → RuntimeContext → ℕ → Result Msg2
  msg2_gen c rc ead_1_len = do
    p ← msg1_parse rc.msg1 ead_1_len
    suite ← responder_suite c p
    let flags = authentication_type_get p.method (some rc.static_dh_i) none
    static_dh_i ← flag_value flags.0
    e ← responder_exchange c suite rc.msg1 p.g_x
    m ← responder_respond c suite flags.1 p.g_x e
    ok (record {
      rc = record rc {
        msg2 = m.msg2;
        suite = suite;
        th3 = m.th3;
        prk_3e2m = m.prk_3e2m;
        static_dh_i = static_dh_i;
      };
      ead_1 = p.ead_1;
    })

  unfoldable pub msg3_process :
      ResponderContext → RuntimeContext → List OtherPartyCred → ℕ → Result ProcessedMsg3
  msg3_process c rc cred_i_array ead_3_len = do
    ciphertext_3 ← decode_byte_string ex rc.msg3 ciphertext_default_size
    p ←
        ciphertext_decrypt_split ex ciphertext3 rc.suite 600 128 ead_3_len rc.prk_3e2m rc.th3
          ciphertext_3
    id_cred_i ← read p.id_cred_x.len p.id_cred_x.ptr
    r ← retrieve_cred ex rc.static_dh_i cred_i_array id_cred_i
    prk_4x3m ← prk_derive ex rc.static_dh_i rc.suite rc.prk_3e2m r.g c.y
    signature_or_mac_verify ex (statement_3 prk_4x3m rc.th3 id_cred_i r.cred p.ad) rc.static_dh_i
        rc.suite r.pk p.sign_or_mac
    th4 ← th4_calculate ex rc.suite.edhoc_hash rc.th3 ciphertext_3
    ok (record { secrets = record { prk_4x3m = prk_4x3m; th4 = th4 }; ead_3 = p.ad })

  unfoldable pub msg4_gen : ResponderContext → RuntimeContext → Secrets → Result RuntimeContext
  msg4_gen c rc s = do
    ciphertext_4 ← ciphertext_gen ex ciphertext4 rc.suite [] [] c.ead_4 s.prk_4x3m s.th4
    bytes ← encode_byte_string ex ciphertext_4 msg_2_default_size
    ok (record rc { msg4 = bytes })

  -- The end of a run: message 4 is sent where the context asks for it.
  unfoldable pub responder_last :
      ResponderContext → Transport → List Bytes → RuntimeContext → Secrets → Result (Unit {0})
  responder_last c t sent rc s =
      if c.msg4 then (do rc' ← msg4_gen c rc s; t.tx sent rc'.msg4) else ok tt

  unfoldable pub edhoc_responder_run :
      ResponderContext → List OtherPartyCred → ℕ → ℕ → Transport → Result ResponderRun
  edhoc_responder_run c cred_i_array ead_1_len ead_3_len t = do
    msg1 ← t.rx [] msg_1_default_size
    m ← msg2_gen c (record runtime_context_init { msg1 = msg1 }) ead_1_len
    t.tx [] m.rc.msg2
    msg3 ← t.rx (m.rc.msg2 ∷ []) msg_2_default_size
    p ← msg3_process c (record m.rc { msg3 = msg3 }) cred_i_array ead_3_len
    responder_last c t (m.rc.msg2 ∷ []) m.rc p.secrets
    ok (record { secrets = p.secrets; ead_1 = m.ead_1; ead_3 = p.ead_3 })
