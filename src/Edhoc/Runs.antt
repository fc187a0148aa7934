-- ===== src/Edhoc/Runs.antt =====
-- Two complete runs, over a transport that delivers (`edhoc_initiator_run` of
-- src/edhoc/initiator.c, `edhoc_responder_run` of src/edhoc/responder.c).
use zephyr_uoscore_uedhoc.Edhoc.Strings.{Reads, CxReads}
use zephyr_uoscore_uedhoc.Prelude.{
  ℕ, ◌≡◌, ◌<◌, sym, ap, true, List, [], ◌∷◌, ◌∙◌, All, length, some,
}
use zephyr_uoscore_uedhoc.Memory.{Bytes, ByteArray, ok, of_bytes}
use zephyr_uoscore_uedhoc.Memory.Laws.{bind_ok, ok_inj}
use zephyr_uoscore_uedhoc.Edhoc.Messages.{
  InitiatorContext, ResponderContext, RuntimeContext, Transport, msg_1_default_size,
  msg_2_default_size, runtime_context_init,
}
use zephyr_uoscore_uedhoc.Edhoc.Initiator.{
  InitiatorRun, Msg3, cx_string, edhoc_initiator_run, initiator_last, message_1_of, msg1_gen,
  msg3_gen, suites_message,
}
use zephyr_uoscore_uedhoc.Edhoc.Strings.{CxReads}
use zephyr_uoscore_uedhoc.Edhoc.Coders.{EdhocExternal, M2, Message1}
use zephyr_uoscore_uedhoc.Edhoc.Suites.{Cx, x25519}
use zephyr_uoscore_uedhoc.Edhoc.Responder.{
  Msg2, ProcessedMsg3, ResponderRun, edhoc_responder_run, msg2_gen, msg3_process, responder_last,
}
use zephyr_uoscore_uedhoc.Edhoc.Wrapper.{shared_secret_derive}
use zephyr_uoscore_uedhoc.Edhoc.Credentials.{OtherPartyCred, Retrieved, retrieve_cred}
use zephyr_uoscore_uedhoc.Edhoc.Session.{session_agreement}

module _ (ex : EdhocExternal) where
  initiator_run-parts :
      (c : InitiatorContext) (creds : List OtherPartyCred) (n k : ℕ) (t : Transport)
      (out : InitiatorRun)
      → edhoc_initiator_run ex c creds n k t ≡ ok out
      → (rc : RuntimeContext) × (msg2 : Bytes) × (m : Msg3) × (msg1_gen ex c runtime_context_init
          ≡ ok rc)
        × (t.tx [] rc.msg1 ≡ ok tt)
        × (t.rx (rc.msg1 ∷ []) msg_2_default_size ≡ ok msg2)
        × (msg3_gen ex c (record rc { msg2 = msg2 }) creds n ≡ ok m)
        × (t.tx (rc.msg1 ∷ []) m.rc.msg3 ≡ ok tt)
        × (m.secrets ≡ out.secrets)
  unfolding edhoc_initiator_run
  initiator_run-parts c creds n k t out h =
      let a = bind_ok (msg1_gen ex c runtime_context_init) _ out h in
      let b = bind_ok (t.tx [] a.0.msg1) _ out a.2 in
      let d = bind_ok (t.rx (a.0.msg1 ∷ []) msg_2_default_size) _ out b.2 in
      let e = bind_ok (msg3_gen ex c (record a.0 { msg2 = d.0 }) creds n) _ out d.2 in
      let f = bind_ok (t.tx (a.0.msg1 ∷ []) e.0.rc.msg3) _ out e.2 in
      let g =
        bind_ok (initiator_last ex c.msg4 t (e.0.rc.msg3 ∷ a.0.msg1 ∷ []) e.0.rc k e.0.secrets) _
          out f.2 in
      (a.0, d.0, e.0, a.1, b.1, d.1, e.1, f.1, ap (λ (z : InitiatorRun). z.secrets) (ok_inj g.2))

  responder_run-parts :
      (c : ResponderContext) (creds : List OtherPartyCred) (n k : ℕ) (t : Transport)
      (out : ResponderRun)
      → edhoc_responder_run ex c creds n k t ≡ ok out
      → (msg1 : Bytes) × (m : Msg2) × (msg3 : Bytes) × (p : ProcessedMsg3) × (t.rx []
            msg_1_default_size
          ≡ ok msg1)
        × (msg2_gen ex c (record runtime_context_init { msg1 = msg1 }) n ≡ ok m)
        × (t.tx [] m.rc.msg2 ≡ ok tt)
        × (t.rx (m.rc.msg2 ∷ []) msg_2_default_size ≡ ok msg3)
        × (msg3_process ex c (record m.rc { msg3 = msg3 }) creds k ≡ ok p)
        × (p.secrets ≡ out.secrets)
  unfolding edhoc_responder_run
  responder_run-parts c creds n k t out h =
      let a = bind_ok (t.rx [] msg_1_default_size) _ out h in
      let b = bind_ok (msg2_gen ex c (record runtime_context_init { msg1 = a.0 }) n) _ out a.2 in
      let d = bind_ok (t.tx [] b.0.rc.msg2) _ out b.2 in
      let e = bind_ok (t.rx (b.0.rc.msg2 ∷ []) msg_2_default_size) _ out d.2 in
      let f = bind_ok (msg3_process ex c (record b.0.rc { msg3 = e.0 }) creds k) _ out e.2 in
      let g = bind_ok (responder_last ex c t (b.0.rc.msg2 ∷ []) b.0.rc f.0.secrets) _ out f.2 in
      (
        a.0,
        b.0,
        e.0,
        f.0,
        a.1,
        b.1,
        d.1,
        e.1,
        f.1,
        ap (λ (z : ResponderRun). z.secrets) (ok_inj g.2),
      )

  -- When both runs return, over a transport that delivers each message as it was sent, both
  -- parties hold the same PRK_4x3m and the same TH_4. The suites of the initiator are bytes; the
  -- coders decode what they encode; the ephemeral keys, and the static keys of the credentials
  -- that each side retrieves, give both sides the same secret.
  pub run_agreement :
      (ci : InitiatorContext) (cr : ResponderContext) (creds_r creds_i : List OtherPartyCred)
      (n1 n2 n3 n4 : ℕ) (ti tr : Transport) (out_i : InitiatorRun) (out_r : ResponderRun)
      → ((out : Bytes) (n : ℕ)
          → ex.cbor_encode_message_1 n (message_1_of ci) ≡ some out
          → (d : Message1) × (ex.cbor_decode_message_1 out ≡ some d)
            × (d.method ≡ ci.method)
            × (d.suites_i ≡ suites_message ci.suites_i)
            × Reads d.g_x ci.g_x)
      → ((n : ℕ) (b out : Bytes) (c : Cx)
          → ex.cbor_encode_m2 n (record { g_y_ciphertext_2 = of_bytes b; c_r = cx_string c })
            ≡ some out
          → (d : M2) × (ex.cbor_decode_m2 out ≡ some d)
            × Reads d.g_y_ciphertext_2 b
            × CxReads d.c_r c)
      → ((n : ℕ) (b out : Bytes)
          → ex.cbor_encode_bstr_type_b_str n b ≡ some out
          → (s : ByteArray) × (ex.cbor_decode_bstr_type_b_str out ≡ some s) × Reads s b)
      → All (λ b. b < 256) ci.suites_i
      → length cr.g_y ≡ 32
      → shared_secret_derive ex x25519 ci.x cr.g_y ≡ shared_secret_derive ex x25519 cr.y ci.g_x
      → ((id : Bytes) (r : Retrieved)
          → retrieve_cred ex true creds_r id ≡ ok r
          → shared_secret_derive ex x25519 ci.x r.g ≡ shared_secret_derive ex x25519 cr.r ci.g_x)
      → ((id : Bytes) (r : Retrieved)
          → retrieve_cred ex true creds_i id ≡ ok r
          → shared_secret_derive ex x25519 ci.i cr.g_y ≡ shared_secret_derive ex x25519 cr.y r.g)
      → ((msg1 : Bytes) → ti.tx [] msg1 ≡ ok tt → tr.rx [] msg_1_default_size ≡ ok msg1)
      → ((msg1 msg2 : Bytes)
          → tr.tx [] msg2 ≡ ok tt
          → ti.rx (msg1 ∷ []) msg_2_default_size ≡ ok msg2)
      → ((msg1 msg2 msg3 : Bytes)
          → ti.tx (msg1 ∷ []) msg3 ≡ ok tt
          → tr.rx (msg2 ∷ []) msg_2_default_size ≡ ok msg3)
      → edhoc_initiator_run ex ci creds_r n1 n2 ti ≡ ok out_i
      → edhoc_responder_run ex cr creds_i n3 n4 tr ≡ ok out_r
      → out_i.secrets ≡ out_r.secrets
  run_agreement ci cr creds_r creds_i n1 n2 n3 n4 ti tr out_i out_r law1 law2 law_b bytes len dh
        dh_r dh_i deliver1 deliver2 deliver3 hi hr =
      let I = initiator_run-parts ci creds_r n1 n2 ti out_i hi in
      let R = responder_run-parts cr creds_i n3 n4 tr out_r hr in
      let one : R.0 ≡ I.0.msg1 = ok_inj (sym R.4 ∙ deliver1 I.0.msg1 I.4) in
      let two : I.1 ≡ R.1.rc.msg2 = ok_inj (sym I.5 ∙ deliver2 I.0.msg1 R.1.rc.msg2 R.6) in
      let three : R.2 ≡ I.2.rc.msg3 =
        ok_inj (sym R.7 ∙ deliver3 I.0.msg1 R.1.rc.msg2 I.2.rc.msg3 I.7) in
      sym I.8
      ∙ sym (
          session_agreement ex ci cr I.0 runtime_context_init runtime_context_init creds_r creds_i
            n3 n1 n4 R.1 I.2 R.3 law1 law2 law_b bytes len dh dh_r dh_i I.3
            (ap (λ b. msg2_gen ex cr (record runtime_context_init { msg1 = b }) n3) (sym one) ∙ R.5)
            (ap (λ b. msg3_gen ex ci (record I.0 { msg2 = b }) creds_r n1) (sym two) ∙ I.6)
            (ap (λ b. msg3_process ex cr (record R.1.rc { msg3 = b }) creds_i n4) (sym three)
              ∙ R.8))
      ∙ R.9
