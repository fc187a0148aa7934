-- ===== src/Edhoc/Session.antt =====
-- A run of both parties without a disturbance: the calls of `edhoc_initiator_run`
-- (src/edhoc/initiator.c) and `edhoc_responder_run` (src/edhoc/responder.c), each on the message
-- that the other one wrote.
use mathlib.Core.Path.{subst}
use zephyr_uoscore_uedhoc.Edhoc.Strings.{Reads, CxReads}
use zephyr_uoscore_uedhoc.Prelude.{
  ℕ, ◌≡◌, ◌<◌, refl, sym, arith, Bool, false, length, some, none, ◌∙◌, All, [], ap, ◌∷◌, some_inj,
  List, true, if◌then◌else◌,
}
use zephyr_uoscore_uedhoc.Memory.{
  Bytes, ByteArray, ok, of_bytes, copy_s, Err, Result, err, error_message_sent,
}
use zephyr_uoscore_uedhoc.Edhoc.Suites.{
  Cx, EcdhAlg, authentication_type_get, other_ecdh, p256, x25519, Suite, get_suite, get_ecdh_pk_len,
}
use zephyr_uoscore_uedhoc.Edhoc.Initiator.{
  cx_string, msg2_parse, suites_message, Msg3, message_1_of, msg1_gen, msg3_gen, Exchange,
  initiator_exchange, ParsedMsg2,
}
use zephyr_uoscore_uedhoc.Edhoc.Authentication.{decode_byte_string}
use zephyr_uoscore_uedhoc.Edhoc.Coders.{EdhocExternal, M2, Message1}
use zephyr_uoscore_uedhoc.Edhoc.Responder.{
  suites_of_message, Msg2, ProcessedMsg3, msg2_gen, msg3_process, ParsedMsg1, g_x_default_size,
  msg1_parse, parsed_c_i, parsed_ead_1, responder_exchange, responder_suite,
  selected_suite_is_supported, suites_i_size, msg2_encode,
}
use zephyr_uoscore_uedhoc.Memory.Laws.{bind_ok, ok_inj}
use zephyr_uoscore_uedhoc.Edhoc.Wrapper.{shared_secret_derive}
use zephyr_uoscore_uedhoc.Edhoc.Messages.{
  flag_value, InitiatorContext, ResponderContext, RuntimeContext, last_suite, msg_1_default_size,
}
use zephyr_uoscore_uedhoc.Crypto.Wrapper.{expect}
use zephyr_uoscore_uedhoc.Crypto.Expand.{expect-some}
use zephyr_uoscore_uedhoc.Edhoc.Credentials.{OtherPartyCred, Retrieved, retrieve_cred}
use zephyr_uoscore_uedhoc.Edhoc.Transcript.{th2_calculate}
use zephyr_uoscore_uedhoc.Edhoc.Keys.{prk_derive}
use zephyr_uoscore_uedhoc.Edhoc.Agreement.{
  exchange-agree, initiator_authenticate-parts, initiator_respond-parts, msg2_gen-parts,
  msg3_gen-parts, msg3_process-parts, responder_respond-parts,
}
use zephyr_uoscore_uedhoc.Edhoc.Strings.{
  CxReads, copy_s-Reads, decode_byte_string-encode, map-u8, msg2_parse-encode,
}
use zephyr_uoscore_uedhoc.Edhoc.Secrets.{
  key_moved, key_of_moved, prk_moved, secrets_agree, th3_moved, th4_moved,
}

-- A method under which the responder knows both flags gives the initiator the same.
flags_agree :
    (m : ℕ) (x dh di : Bool)
    → flag_value (authentication_type_get m (some x) none).1 ≡ ok dh
    → flag_value (authentication_type_get m (some x) none).0 ≡ ok di
    → authentication_type_get m (some false) (some false) ≡ (some di, some dh)
unfolding authentication_type_get
flags_agree m x dh di h k = ground arith

last_suite_u8 :
    (cap : ℕ) (s t : Bytes)
    → All (λ b. b < 256) s
    → suites_of_message cap (suites_message s) ≡ ok t
    → t ≡ s
last_suite_u8 cap [] t h e = ground arith
last_suite_u8 cap (a ∷ []) t h e = ground arith
last_suite_u8 cap (a ∷ b ∷ s) t h e = ground (arith, map-u8 (a ∷ b ∷ s) h)

if_ok {ℓ} :
    {A : Type ℓ} (b : Bool) (r : Result A) (code : Err) (a : A)
    → (if b then r else err code) ≡ ok a
    → r ≡ ok a
if_ok true r code a e = e
if_ok false r code a e = ground arith

module _ (ex : EdhocExternal) where
  x25519_only :
      (alg : EcdhAlg) (sk pk s : Bytes) → shared_secret_derive ex alg sk pk ≡ ok s → alg ≡ x25519
  x25519_only x25519 sk pk s e = refl
  x25519_only p256 sk pk s e = ground arith
  x25519_only other_ecdh sk pk s e = ground arith

  msg1_parse-parts :
      (msg1 : Bytes) (n : ℕ) (p : ParsedMsg1) (d : Message1)
      → msg1_parse ex msg1 n ≡ ok p
      → ex.cbor_decode_message_1 msg1 ≡ some d
      → (p.method ≡ d.method)
        × (suites_of_message suites_i_size d.suites_i ≡ ok p.suites_i)
        × (copy_s g_x_default_size d.g_x.ptr d.g_x.len ≡ ok p.g_x)
  unfolding msg1_parse
  msg1_parse-parts msg1 n p d e known =
      let m = bind_ok (expect (ex.cbor_decode_message_1 msg1)) _ p e in
      let s = bind_ok (suites_of_message suites_i_size m.0.suites_i) _ p m.2 in
      let g = bind_ok (copy_s g_x_default_size m.0.g_x.ptr m.0.g_x.len) _ p s.2 in
      let c = bind_ok (parsed_c_i m.0.c_i) _ p g.2 in
      let a = bind_ok (parsed_ead_1 n m.0.ead_1) _ p c.2 in
      let w = ok_inj a.2 in
      let same : m.0 ≡ d = (some_inj).0 (sym (expect-some _ m.0 m.1) ∙ known) in
      (
        sym (ap (λ (z : ParsedMsg1). z.method) w) ∙ ap (λ (z : Message1). z.method) same,
        subst (λ (z : Message1). suites_of_message suites_i_size z.suites_i ≡ ok p.suites_i) same
            (s.1 ∙ ap (λ (z : ParsedMsg1). ok z.suites_i) w),
        subst (λ (z : Message1). copy_s g_x_default_size z.g_x.ptr z.g_x.len ≡ ok p.g_x) same
            (g.1 ∙ ap (λ (z : ParsedMsg1). ok z.g_x) w),
      )

  responder_suite-parts :
      (c : ResponderContext) (p : ParsedMsg1) (suite : Suite)
      → responder_suite ex c p ≡ ok suite
      → (label : ℕ) × (last_suite p.suites_i ≡ ok label) × (get_suite label ≡ ok suite)
  unfolding responder_suite
  responder_suite-parts c p suite e =
      let l = bind_ok (last_suite p.suites_i) _ suite e in
      let s = bind_ok (selected_suite_is_supported l.0 c.suites_r) _ suite l.2 in
      (l.0, l.1, if_ok s.0 (get_suite l.0) error_message_sent suite s.2)

  responder_exchange-x25519 :
      (c : ResponderContext) (suite : Suite) (msg1 g_x : Bytes) (e : Exchange)
      → responder_exchange ex c suite msg1 g_x ≡ ok e
      → suite.edhoc_ecdh ≡ x25519
  unfolding responder_exchange
  responder_exchange-x25519 c suite msg1 g_x e h =
      let t = bind_ok (th2_calculate ex suite.edhoc_hash msg1 c.g_y c.c_r) _ e h in
      let s = bind_ok (shared_secret_derive ex suite.edhoc_ecdh c.y g_x) _ e t.2 in
      x25519_only suite.edhoc_ecdh c.y g_x s.0 s.1

  -- The responder gets the method, the suites and G_X of the initiator.
  opening_agrees :
      (ci : InitiatorContext) (rc rc0 : RuntimeContext) (n : ℕ) (p : ParsedMsg1)
      → ((out : Bytes) (n : ℕ)
          → ex.cbor_encode_message_1 n (message_1_of ci) ≡ some out
          → (d : Message1) × (ex.cbor_decode_message_1 out ≡ some d)
            × (d.method ≡ ci.method)
            × (d.suites_i ≡ suites_message ci.suites_i)
            × Reads d.g_x ci.g_x)
      → All (λ b. b < 256) ci.suites_i
      → msg1_gen ex ci rc0 ≡ ok rc
      → msg1_parse ex rc.msg1 n ≡ ok p
      → (p.method ≡ ci.method) × (p.suites_i ≡ ci.suites_i) × (p.g_x ≡ ci.g_x)
  unfolding msg1_gen
  opening_agrees ci rc rc0 n p law bytes h parse =
      let one =
        bind_ok (expect (ex.cbor_encode_message_1 msg_1_default_size (message_1_of ci))) _ rc h in
      let msg1 : one.0 ≡ rc.msg1 = ap (λ (z : RuntimeContext). z.msg1) (ok_inj one.2) in
      let l = law rc.msg1 msg_1_default_size (expect-some _ one.0 one.1 ∙ ap some msg1) in
      let q = msg1_parse-parts rc.msg1 n p l.0 parse l.1 in
      (
        q.0 ∙ l.2,
        last_suite_u8 suites_i_size ci.suites_i p.suites_i bytes
            (ap (suites_of_message suites_i_size) (sym l.3) ∙ q.1),
        copy_s-Reads g_x_default_size l.0.g_x ci.g_x p.g_x l.4 q.2,
      )

  -- The initiator gets G_Y, C_R and the ciphertext of the responder.
  msg2_agrees :
      (cr : ResponderContext) (suite suite' : Suite) (c2 msg2 out : Bytes) (m : ParsedMsg2)
      → ((n : ℕ) (b out : Bytes) (c : Cx)
          → ex.cbor_encode_m2 n (record { g_y_ciphertext_2 = of_bytes b; c_r = cx_string c })
            ≡ some out
          → (d : M2) × (ex.cbor_decode_m2 out ≡ some d)
            × Reads d.g_y_ciphertext_2 b
            × CxReads d.c_r c)
      → suite ≡ suite'
      → suite'.edhoc_ecdh ≡ x25519
      → length cr.g_y ≡ 32
      → msg2 ≡ out
      → msg2_encode ex cr.g_y cr.c_r c2 ≡ ok out
      → msg2_parse ex msg2 (get_ecdh_pk_len suite.edhoc_ecdh) ≡ ok m
      → (m.g_y ≡ cr.g_y) × (m.c_r ≡ cr.c_r) × (m.ciphertext_2 ≡ c2)
  msg2_agrees cr suite suite' c2 msg2 out m law same ecdh len sent enc parse =
      let pk_len : get_ecdh_pk_len suite.edhoc_ecdh ≡ length cr.g_y =
        ap (λ (z : Suite). get_ecdh_pk_len z.edhoc_ecdh) same ∙ ap get_ecdh_pk_len ecdh ∙ sym len in
      msg2_parse-encode ex cr.g_y c2 out cr.c_r m law enc (
        ap (λ b. msg2_parse ex b (length cr.g_y)) (sym sent)
        ∙ ap (λ k. msg2_parse ex msg2 k) (sym pk_len)
        ∙ parse)

  -- Only X25519 is built.
  by_x25519 :
      {alg : EcdhAlg}
      → alg ≡ x25519
      → (sk pk sk' pk' : Bytes)
      → shared_secret_derive ex x25519 sk pk ≡ shared_secret_derive ex x25519 sk' pk'
      → shared_secret_derive ex alg sk pk ≡ shared_secret_derive ex alg sk' pk'
  by_x25519 e sk pk sk' pk' =
      subst (λ alg. shared_secret_derive ex alg sk pk ≡ shared_secret_derive ex alg sk' pk') (sym e)

  -- When both parties of an undisturbed run return, they hold the same PRK_4x3m and the same TH_4.
  -- The suites of the initiator are bytes; the coders decode what they encode; the ephemeral keys,
  -- and the static keys of the credentials that each side retrieves, give both sides the same
  -- secret.
  pub session_agreement :
      (ci : InitiatorContext) (cr : ResponderContext) (rc rc' rc0 : RuntimeContext)
      (creds_r creds_i : List OtherPartyCred) (n1 n2 n3 : ℕ) (m2 : Msg2) (m3 : Msg3)
      (out : ProcessedMsg3)
      → ((out : Bytes) (n : ℕ)
          → ex.cbor_encode_message_1 n (message_1_of ci) ≡ some out
          → (d : Message1) × (ex.cbor_decode_message_1 out ≡ some d)
            × (d.method ≡ ci.method)
            × (d.suites_i ≡ suites_message ci.suites_i)
            × Reads d.g_x ci.g_x)
      → ((n : ℕ) (b out : Bytes) (c : Cx)
          → ex.cbor_encode_m2 n (record { g_y_ciphertext_2 = of_bytes b; c_r = cx_string c })
            ≡ some out
          → (d : M2) × (ex.cbor_decode_m2 out ≡ some d)
            × Reads d.g_y_ciphertext_2 b
            × CxReads d.c_r c)
      → ((n : ℕ) (b out : Bytes)
          → ex.cbor_encode_bstr_type_b_str n b ≡ some out
          → (s : ByteArray) × (ex.cbor_decode_bstr_type_b_str out ≡ some s) × Reads s b)
      → All (λ b. b < 256) ci.suites_i
      → length cr.g_y ≡ 32
      → shared_secret_derive ex x25519 ci.x cr.g_y ≡ shared_secret_derive ex x25519 cr.y ci.g_x
      → ((id : Bytes) (r : Retrieved)
          → retrieve_cred ex true creds_r id ≡ ok r
          → shared_secret_derive ex x25519 ci.x r.g ≡ shared_secret_derive ex x25519 cr.r ci.g_x)
      → ((id : Bytes) (r : Retrieved)
          → retrieve_cred ex true creds_i id ≡ ok r
          → shared_secret_derive ex x25519 ci.i cr.g_y ≡ shared_secret_derive ex x25519 cr.y r.g)
      → msg1_gen ex ci rc0 ≡ ok rc
      → msg2_gen ex cr (record rc' { msg1 = rc.msg1 }) n1 ≡ ok m2
      → msg3_gen ex ci (record rc { msg2 = m2.rc.msg2 }) creds_r n2 ≡ ok m3
      → msg3_process ex cr (record m2.rc { msg3 = m3.rc.msg3 }) creds_i n3 ≡ ok out
      → out.secrets ≡ m3.secrets
  session_agreement ci cr rc rc' rc0 creds_r creds_i n1 n2 n3 m2 m3 out law1 law2 law_b bytes len dh
        dh_r dh_i h1 h2 h3 h4 =
      let P = msg2_gen-parts ex cr (record rc' { msg1 = rc.msg1 }) n1 m2 h2 in
      let O = opening_agrees ci rc rc0 n1 P.0 law1 bytes h1 P.5 in
      let t = responder_suite-parts cr P.0 P.1 P.6 in
      let R = responder_respond-parts ex cr P.1 _ P.0.g_x P.3 P.4 P.9 in
      let I = msg3_gen-parts ex ci (record rc { msg2 = m2.rc.msg2 }) creds_r n2 m3 h3 in
      let label : I.0 ≡ t.0 = ok_inj (sym I.8 ∙ ap last_suite (sym O.1) ∙ t.1) in
      let suite : I.1 ≡ P.1 = ok_inj (sym I.9 ∙ ap get_suite label ∙ t.2) in
      let flags =
        ap (λ k. authentication_type_get k (some false) (some false)) (sym O.0)
        ∙ flags_agree P.0.method rc'.static_dh_i R.0 P.2 R.2 P.7 in
      let di : I.2 ≡ P.2 = ok_inj (sym I.10 ∙ ap (λ f. flag_value f.0) flags) in
      let dr : I.3 ≡ R.0 = ok_inj (sym I.11 ∙ ap (λ f. flag_value f.1) flags) in
      let ecdh = responder_exchange-x25519 cr P.1 rc.msg1 P.0.g_x P.3 P.8 in
      let M =
        msg2_agrees cr I.1 P.1 R.1 m2.rc.msg2 P.4.msg2 I.4 law2 suite ecdh len
          (ap (λ (z : RuntimeContext). z.msg2) P.10) R.4 I.12 in
      let X =
        exchange-agree ex ci cr P.1 rc.msg1 I.4 P.3 M.0 M.1
          (by_x25519 ecdh ci.x cr.g_y cr.y ci.g_x dh)
          (ap (λ g. responder_exchange ex cr P.1 rc.msg1 g) (sym O.2) ∙ P.8) in
      let e : I.5 ≡ P.3 =
        ok_inj (sym I.13 ∙ ap (λ s. initiator_exchange ex ci s rc.msg1 I.4) suite ∙ X) in
      let A = initiator_authenticate-parts ex ci I.1 I.3 creds_r n2 I.4 I.5 I.6 I.14 in
      let B = initiator_respond-parts ex ci I.1 I.2 I.4 I.5 I.6 I.7 I.15 in
      let Q = msg3_process-parts ex cr (record m2.rc { msg3 = m3.rc.msg3 }) creds_i n3 out h4 in
      let c3 : Q.0 ≡ B.1 =
        decode_byte_string-encode ex B.1 I.7.msg3 Q.0 700 650 law_b B.4
          (ap (λ b. decode_byte_string ex b 650) (sym I.16) ∙ Q.3) in
      let suite_r = ap (λ (z : RuntimeContext). z.suite) P.10 in
      let di_r = ap (λ (z : RuntimeContext). z.static_dh_i) P.10 in
      let th3_r = ap (λ (z : RuntimeContext). z.th3) P.10 in
      let prk_r = ap (λ (z : RuntimeContext). z.prk_3e2m) P.10 in
      secrets_agree ex ci cr P.1 P.2 R.0 P.3 P.4.prk_3e2m I.6.prk P.4.th3 B.0 R.1 B.1 A.1 Q.2
        I.7.secrets out.secrets
        (λ z.
          by_x25519 ecdh ci.x A.1.g cr.r ci.g_x
            (dh_r A.0 A.1 (ap (λ b. retrieve_cred ex b creds_r A.0) (sym (dr ∙ z)) ∙ A.2)))
        (λ z.
          by_x25519 ecdh ci.i cr.g_y cr.y Q.2.g
            (dh_i Q.1 Q.2 (ap (λ b. retrieve_cred ex b creds_i Q.1) (sym (di_r ∙ z)) ∙ Q.4)))
        (ap (λ g. prk_derive ex R.0 P.1 P.3.prk_2e g cr.r) (sym O.2) ∙ R.3)
        (prk_moved ex A.1.g ci.x dr suite e A.3) R.5 (th3_moved ex suite e M.2 B.2)
        (key_moved ex I.6.prk ci.i di suite M.0 B.3)
        (key_of_moved ex Q.2.g cr.y di_r suite_r prk_r Q.5) (th4_moved ex suite refl refl B.5)
        (th4_moved ex suite_r th3_r c3 Q.6)
      ∙ sym I.17
