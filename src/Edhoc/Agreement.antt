-- ===== src/Edhoc/Agreement.antt =====
-- What the two parties of a run agree on (src/edhoc/initiator.c, src/edhoc/responder.c).
use zephyr_uoscore_uedhoc.Prelude.{
  ℕ, ◌≡◌, refl, Bool, true, false, List, Option, ap, length, u32, ◌+◌, ◌∙◌, none, some, sym,
}
use zephyr_uoscore_uedhoc.Memory.{Bytes, ok, check_buffer_size, read}
use zephyr_uoscore_uedhoc.Memory.Laws.{bind_ok, ok_inj}
use zephyr_uoscore_uedhoc.Edhoc.Transcript.{
  th2_calculate, th3_calculate, th4_calculate, encoding_overhead,
}
use zephyr_uoscore_uedhoc.Edhoc.Initiator.{
  Authentic, Exchange, ParsedMsg2, Response, initiator_authenticate, initiator_exchange,
  initiator_respond, statement_2, statement_3, Msg3, msg2_parse, msg3_gen,
}
use zephyr_uoscore_uedhoc.Edhoc.Credentials.{OtherPartyCred, Retrieved, retrieve_cred}
use zephyr_uoscore_uedhoc.Edhoc.Responder.{
  Message2, ProcessedMsg3, msg2_encode, msg3_process, responder_exchange, responder_respond, Msg2,
  ParsedMsg1, msg1_parse, msg2_gen, responder_suite,
}
use zephyr_uoscore_uedhoc.Edhoc.Suites.{Suite, authentication_type_get, get_ecdh_pk_len, get_suite}
use zephyr_uoscore_uedhoc.Edhoc.Coders.{EdhocExternal}
use zephyr_uoscore_uedhoc.Edhoc.Messages.{
  InitiatorContext, ResponderContext, RuntimeContext, flag_value, msg_2_default_size, last_suite,
}
use zephyr_uoscore_uedhoc.Edhoc.Authentication.{
  decode_byte_string, encode_byte_string, signature_or_mac_generate, signature_or_mac_verify,
}
use zephyr_uoscore_uedhoc.Edhoc.Keys.{prk_derive}
use zephyr_uoscore_uedhoc.Edhoc.Wrapper.{shared_secret_derive}
use zephyr_uoscore_uedhoc.Edhoc.Ciphertext.{
  ciphertext_default_size, ciphertext2, ciphertext3, ciphertext_decrypt_split, ciphertext_gen,
}

module _ (ex : EdhocExternal) where
  -- The second message of the responder rests on the second key and on one ciphertext.
  pub responder_respond-parts :
      (c : ResponderContext) (suite : Suite) (static_dh : Option Bool) (g_x : Bytes) (e : Exchange)
      (m : Message2)
      → responder_respond ex c suite static_dh g_x e ≡ ok m
      → (dh : Bool) × (c2 : Bytes) × (flag_value static_dh ≡ ok dh)
        × (prk_derive ex dh suite e.prk_2e g_x c.r ≡ ok m.prk_3e2m)
        × (msg2_encode ex c.g_y c.c_r c2 ≡ ok m.msg2)
        × (th3_calculate ex suite.edhoc_hash e.th2 c2 ≡ ok m.th3)
  unfolding responder_respond
  responder_respond-parts c suite static_dh g_x e m h =
      let a = bind_ok (flag_value static_dh) _ m h in
      let b = bind_ok (prk_derive ex a.0 suite e.prk_2e g_x c.r) _ m a.2 in
      let s =
        bind_ok
          (signature_or_mac_generate ex (statement_2 b.0 e.th2 c.id_cred_r c.cred_r c.ead_2) a.0
            suite c.sk_r c.pk_r)
          _ m b.2 in
      let t =
        bind_ok (ciphertext_gen ex ciphertext2 suite c.id_cred_r s.0 c.ead_2 e.prk_2e e.th2) _ m
          s.2 in
      let u = bind_ok (msg2_encode ex c.g_y c.c_r t.0) _ m t.2 in
      let v = bind_ok (th3_calculate ex suite.edhoc_hash e.th2 t.0) _ m u.2 in
      let w = ok_inj v.2 in
      (
        a.0,
        t.0,
        a.1,
        b.1 ∙ ap (λ (z : Message2). ok z.prk_3e2m) w,
        u.1 ∙ ap (λ (z : Message2). ok z.msg2) w,
        v.1 ∙ ap (λ (z : Message2). ok z.th3) w,
      )

  pub initiator_authenticate-parts :
      (c : InitiatorContext) (suite : Suite) (dh : Bool) (creds : List OtherPartyCred) (n : ℕ)
      (m : ParsedMsg2) (e : Exchange) (a : Authentic)
      → initiator_authenticate ex c suite dh creds n m e ≡ ok a
      → (id : Bytes) × (r : Retrieved) × (retrieve_cred ex dh creds id ≡ ok r)
        × (prk_derive ex dh suite e.prk_2e r.g c.x ≡ ok a.prk)
  unfolding initiator_authenticate
  initiator_authenticate-parts c suite dh creds n m e a h =
      let p =
        bind_ok
          (ciphertext_decrypt_split ex ciphertext2 suite 600 128 n e.prk_2e e.th2 m.ciphertext_2) _
          a h in
      let i = bind_ok (read p.0.id_cred_x.len p.0.id_cred_x.ptr) _ a p.2 in
      let r = bind_ok (retrieve_cred ex dh creds i.0) _ a i.2 in
      let k = bind_ok (prk_derive ex dh suite e.prk_2e r.0.g c.x) _ a r.2 in
      let v =
        bind_ok
          (signature_or_mac_verify ex (statement_2 k.0 e.th2 i.0 r.0.cred p.0.ad) dh suite r.0.pk
            p.0.sign_or_mac)
          _ a k.2 in
      (i.0, r.0, r.1, k.1 ∙ ap (λ (z : Authentic). ok z.prk) (ok_inj v.2))

  pub initiator_respond-parts :
      (c : InitiatorContext) (suite : Suite) (dh : Bool) (m : ParsedMsg2) (e : Exchange)
      (a : Authentic) (r : Response)
      → initiator_respond ex c suite dh m e a ≡ ok r
      → (th3 : Bytes) × (c3 : Bytes) × (th3_calculate ex suite.edhoc_hash e.th2 m.ciphertext_2
          ≡ ok th3)
        × (prk_derive ex dh suite a.prk m.g_y c.i ≡ ok r.secrets.prk_4x3m)
        × (encode_byte_string ex c3 msg_2_default_size ≡ ok r.msg3)
        × (th4_calculate ex suite.edhoc_hash th3 c3 ≡ ok r.secrets.th4)
  unfolding initiator_respond
  initiator_respond-parts c suite dh m e a r h =
      let t = bind_ok (th3_calculate ex suite.edhoc_hash e.th2 m.ciphertext_2) _ r h in
      let k = bind_ok (prk_derive ex dh suite a.prk m.g_y c.i) _ r t.2 in
      let s =
        bind_ok
          (signature_or_mac_generate ex (statement_3 k.0 t.0 c.id_cred_i c.cred_i c.ead_3) dh suite
            c.sk_i c.pk_i)
          _ r k.2 in
      let g =
        bind_ok (ciphertext_gen ex ciphertext3 suite c.id_cred_i s.0 c.ead_3 a.prk t.0) _ r s.2 in
      let z =
        bind_ok (check_buffer_size ciphertext_default_size (u32 (length g.0 + encoding_overhead))) _
          r g.2 in
      let b = bind_ok (encode_byte_string ex g.0 msg_2_default_size) _ r z.2 in
      let f = bind_ok (th4_calculate ex suite.edhoc_hash t.0 g.0) _ r b.2 in
      let w = ok_inj f.2 in
      (
        t.0,
        g.0,
        t.1,
        k.1 ∙ ap (λ (y : Response). ok y.secrets.prk_4x3m) w,
        b.1 ∙ ap (λ (y : Response). ok y.msg3) w,
        f.1 ∙ ap (λ (y : Response). ok y.secrets.th4) w,
      )

  pub msg3_process-parts :
      (c : ResponderContext) (rc : RuntimeContext) (creds : List OtherPartyCred) (n : ℕ)
      (p : ProcessedMsg3)
      → msg3_process ex c rc creds n ≡ ok p
      → (c3 : Bytes) × (id : Bytes) × (r : Retrieved) × (decode_byte_string ex rc.msg3
            ciphertext_default_size
          ≡ ok c3)
        × (retrieve_cred ex rc.static_dh_i creds id ≡ ok r)
        × (prk_derive ex rc.static_dh_i rc.suite rc.prk_3e2m r.g c.y ≡ ok p.secrets.prk_4x3m)
        × (th4_calculate ex rc.suite.edhoc_hash rc.th3 c3 ≡ ok p.secrets.th4)
  unfolding msg3_process
  msg3_process-parts c rc creds n p h =
      let d = bind_ok (decode_byte_string ex rc.msg3 ciphertext_default_size) _ p h in
      let s =
        bind_ok (ciphertext_decrypt_split ex ciphertext3 rc.suite 600 128 n rc.prk_3e2m rc.th3 d.0)
          _ p d.2 in
      let i = bind_ok (read s.0.id_cred_x.len s.0.id_cred_x.ptr) _ p s.2 in
      let r = bind_ok (retrieve_cred ex rc.static_dh_i creds i.0) _ p i.2 in
      let k = bind_ok (prk_derive ex rc.static_dh_i rc.suite rc.prk_3e2m r.0.g c.y) _ p r.2 in
      let v =
        bind_ok
          (signature_or_mac_verify ex (statement_3 k.0 rc.th3 i.0 r.0.cred s.0.ad) rc.static_dh_i
            rc.suite r.0.pk s.0.sign_or_mac)
          _ p k.2 in
      let f = bind_ok (th4_calculate ex rc.suite.edhoc_hash rc.th3 d.0) _ p v.2 in
      let w = ok_inj f.2 in
      (
        d.0,
        i.0,
        r.0,
        d.1,
        r.1,
        k.1 ∙ ap (λ (y : ProcessedMsg3). ok y.secrets.prk_4x3m) w,
        f.1 ∙ ap (λ (y : ProcessedMsg3). ok y.secrets.th4) w,
      )

  -- Where static keys are used, the same shared secret gives both parties the same key.
  pub prk_derive-agree :
      (dh : Bool) (suite : Suite) (prk pk sk pk' sk' : Bytes)
      → (dh ≡ true
          → shared_secret_derive ex suite.edhoc_ecdh sk pk
            ≡ shared_secret_derive ex suite.edhoc_ecdh sk' pk')
      → prk_derive ex dh suite prk pk sk ≡ prk_derive ex dh suite prk pk' sk'
  prk_derive-agree true suite prk pk sk pk' sk' e = rw (e refl) refl
  prk_derive-agree false suite prk pk sk pk' sk' e = refl

  pub exchange-agree :
      (ci : InitiatorContext) (cr : ResponderContext) (suite : Suite) (msg1 : Bytes)
      (m : ParsedMsg2) (e : Exchange)
      → m.g_y ≡ cr.g_y
      → m.c_r ≡ cr.c_r
      → shared_secret_derive ex suite.edhoc_ecdh ci.x cr.g_y
        ≡ shared_secret_derive ex suite.edhoc_ecdh cr.y ci.g_x
      → responder_exchange ex cr suite msg1 ci.g_x ≡ ok e
      → initiator_exchange ex ci suite msg1 m ≡ ok e
  unfolding responder_exchange initiator_exchange
  exchange-agree ci cr suite msg1 m e g r dh h =
      let t = bind_ok (th2_calculate ex suite.edhoc_hash msg1 cr.g_y cr.c_r) _ e h in
      let s = bind_ok (shared_secret_derive ex suite.edhoc_ecdh cr.y ci.g_x) _ e t.2 in
      rw (g, r, dh, s.1, t.1) s.2

  pub msg2_gen-parts :
      (c : ResponderContext) (rc : RuntimeContext) (n : ℕ) (m : Msg2)
      → msg2_gen ex c rc n ≡ ok m
      → (p : ParsedMsg1) × (suite : Suite) × (di : Bool) × (e : Exchange) × (m' : Message2)
        × (msg1_parse ex rc.msg1 n ≡ ok p)
        × (responder_suite ex c p ≡ ok suite)
        × (flag_value (authentication_type_get p.method (some rc.static_dh_i) none).0 ≡ ok di)
        × (responder_exchange ex c suite rc.msg1 p.g_x ≡ ok e)
        × (responder_respond ex c suite
              (authentication_type_get p.method (some rc.static_dh_i) none).1
              p.g_x
              e
            ≡ ok m')
        × (m.rc ≡ (record rc {
          msg2 = m'.msg2;
          suite = suite;
          th3 = m'.th3;
          prk_3e2m = m'.prk_3e2m;
          static_dh_i = di;
        }))
  unfolding msg2_gen
  msg2_gen-parts c rc n m h =
      let p = bind_ok (msg1_parse ex rc.msg1 n) _ m h in
      let s = bind_ok (responder_suite ex c p.0) _ m p.2 in
      let f = authentication_type_get p.0.method (some rc.static_dh_i) none in
      let d = bind_ok (flag_value f.0) _ m s.2 in
      let e = bind_ok (responder_exchange ex c s.0 rc.msg1 p.0.g_x) _ m d.2 in
      let r = bind_ok (responder_respond ex c s.0 f.1 p.0.g_x e.0) _ m e.2 in
      (p.0, s.0, d.0, e.0, r.0, p.1, s.1, d.1, e.1, r.1, sym (ap (λ (z : Msg2). z.rc) (ok_inj r.2)))

  pub msg3_gen-parts :
      (c : InitiatorContext) (rc : RuntimeContext) (creds : List OtherPartyCred) (n : ℕ) (m : Msg3)
      → msg3_gen ex c rc creds n ≡ ok m
      → (label : ℕ) × (suite : Suite) × (di : Bool) × (dr : Bool) × (m' : ParsedMsg2)
        × (e : Exchange) × (a : Authentic) × (r : Response) × (last_suite c.suites_i ≡ ok label)
        × (get_suite label ≡ ok suite)
        × (flag_value (authentication_type_get c.method (some false) (some false)).0 ≡ ok di)
        × (flag_value (authentication_type_get c.method (some false) (some false)).1 ≡ ok dr)
        × (msg2_parse ex rc.msg2 (get_ecdh_pk_len suite.edhoc_ecdh) ≡ ok m')
        × (initiator_exchange ex c suite rc.msg1 m' ≡ ok e)
        × (initiator_authenticate ex c suite dr creds n m' e ≡ ok a)
        × (initiator_respond ex c suite di m' e a ≡ ok r)
        × (m.rc.msg3 ≡ r.msg3)
        × (m.secrets ≡ r.secrets)
  unfolding msg3_gen
  msg3_gen-parts c rc creds n m h =
      let l = bind_ok (last_suite c.suites_i) _ m h in
      let s = bind_ok (get_suite l.0) _ m l.2 in
      let f = authentication_type_get c.method (some false) (some false) in
      let di = bind_ok (flag_value f.0) _ m s.2 in
      let dr = bind_ok (flag_value f.1) _ m di.2 in
      let p = bind_ok (msg2_parse ex rc.msg2 (get_ecdh_pk_len s.0.edhoc_ecdh)) _ m dr.2 in
      let e = bind_ok (initiator_exchange ex c s.0 rc.msg1 p.0) _ m p.2 in
      let a = bind_ok (initiator_authenticate ex c s.0 dr.0 creds n p.0 e.0) _ m e.2 in
      let r = bind_ok (initiator_respond ex c s.0 di.0 p.0 e.0 a.0) _ m a.2 in
      let w = ok_inj r.2 in
      (
        l.0,
        s.0,
        di.0,
        dr.0,
        p.0,
        e.0,
        a.0,
        r.0,
        l.1,
        s.1,
        di.1,
        dr.1,
        p.1,
        e.1,
        a.1,
        r.1,
        sym (ap (λ (z : Msg3). z.rc.msg3) w),
        sym (ap (λ (z : Msg3). z.secrets) w),
      )
