-- ===== src/Edhoc/Secrets.antt =====
-- The last keys of the two parties (src/edhoc/initiator.c, src/edhoc/responder.c).
use zephyr_uoscore_uedhoc.Prelude.{◌≡◌, sym, Bool, ◌∙◌, ap, true}
use zephyr_uoscore_uedhoc.Memory.{Bytes, ok, Result}
use zephyr_uoscore_uedhoc.Edhoc.Suites.{Suite}
use zephyr_uoscore_uedhoc.Edhoc.Initiator.{Exchange}
use zephyr_uoscore_uedhoc.Edhoc.Coders.{EdhocExternal}
use zephyr_uoscore_uedhoc.Memory.Laws.{ok_inj}
use zephyr_uoscore_uedhoc.Edhoc.Wrapper.{shared_secret_derive}
use zephyr_uoscore_uedhoc.Edhoc.Messages.{InitiatorContext, ResponderContext, Secrets}
use zephyr_uoscore_uedhoc.Edhoc.Credentials.{Retrieved}
use zephyr_uoscore_uedhoc.Edhoc.Transcript.{th3_calculate, th4_calculate}
use zephyr_uoscore_uedhoc.Edhoc.Keys.{prk_derive}
use zephyr_uoscore_uedhoc.Edhoc.Agreement.{prk_derive-agree}

module _ (ex : EdhocExternal) where
  -- The two parties' last steps, on the same suite, flags and ciphertexts
  pub secrets_agree :
      (ci : InitiatorContext) (cr : ResponderContext) (suite : Suite) (di dh : Bool) (e : Exchange)
      (prk_r prk_i th3_r th3_i c2 c3 : Bytes) (r r' : Retrieved) (s s' : Secrets)
      → (dh ≡ true
          → shared_secret_derive ex suite.edhoc_ecdh ci.x r.g
            ≡ shared_secret_derive ex suite.edhoc_ecdh cr.r ci.g_x)
      → (di ≡ true
          → shared_secret_derive ex suite.edhoc_ecdh ci.i cr.g_y
            ≡ shared_secret_derive ex suite.edhoc_ecdh cr.y r'.g)
      → prk_derive ex dh suite e.prk_2e ci.g_x cr.r ≡ ok prk_r
      → prk_derive ex dh suite e.prk_2e r.g ci.x ≡ ok prk_i
      → th3_calculate ex suite.edhoc_hash e.th2 c2 ≡ ok th3_r
      → th3_calculate ex suite.edhoc_hash e.th2 c2 ≡ ok th3_i
      → prk_derive ex di suite prk_i cr.g_y ci.i ≡ ok s.prk_4x3m
      → prk_derive ex di suite prk_r r'.g cr.y ≡ ok s'.prk_4x3m
      → th4_calculate ex suite.edhoc_hash th3_i c3 ≡ ok s.th4
      → th4_calculate ex suite.edhoc_hash th3_r c3 ≡ ok s'.th4
      → s' ≡ s
  secrets_agree ci cr suite di dh e prk_r prk_i th3_r th3_i c2 c3 r r' s s' static_r static_i a b c
        d f g h i =
      let prk : prk_i ≡ prk_r =
        ok_inj (sym b ∙ prk_derive-agree ex dh suite e.prk_2e r.g ci.x ci.g_x cr.r static_r ∙ a) in
      let th3 : th3_i ≡ th3_r = ok_inj (sym d ∙ c) in
      let four : s'.prk_4x3m ≡ s.prk_4x3m = ok_inj (
        sym g
        ∙ sym (prk_derive-agree ex di suite prk_r cr.g_y ci.i r'.g cr.y static_i)
        ∙ ap (λ k. prk_derive ex di suite k cr.g_y ci.i) (sym prk)
        ∙ f) in
      let th4 : s'.th4 ≡ s.th4 =
        ok_inj (sym i ∙ ap (λ t. th4_calculate ex suite.edhoc_hash t c3) (sym th3) ∙ h) in
      λ j. record { prk_4x3m = four j; th4 = th4 j }

  -- The same calls with equal arguments
  pub prk_moved :
      {dh dh' : Bool} {s s' : Suite} {e e' : Exchange} (pk sk : Bytes) {out : Result Bytes}
      → dh ≡ dh'
      → s ≡ s'
      → e ≡ e'
      → prk_derive ex dh s e.prk_2e pk sk ≡ out
      → prk_derive ex dh' s' e'.prk_2e pk sk ≡ out
  prk_moved pk sk a b c h = sym (λ i. prk_derive ex (a i) (b i) ((c i).prk_2e) pk sk) ∙ h

  pub th3_moved :
      {s s' : Suite} {e e' : Exchange} {c c' : Bytes} {out : Result Bytes}
      → s ≡ s'
      → e ≡ e'
      → c ≡ c'
      → th3_calculate ex s.edhoc_hash e.th2 c ≡ out
      → th3_calculate ex s'.edhoc_hash e'.th2 c' ≡ out
  th3_moved a b c h = sym (λ i. th3_calculate ex ((a i).edhoc_hash) ((b i).th2) (c i)) ∙ h

  pub key_moved :
      {dh dh' : Bool} {s s' : Suite} (prk : Bytes) {pk pk' : Bytes} (sk : Bytes)
      {out : Result Bytes}
      → dh ≡ dh'
      → s ≡ s'
      → pk ≡ pk'
      → prk_derive ex dh s prk pk sk ≡ out
      → prk_derive ex dh' s' prk pk' sk ≡ out
  key_moved prk sk a b c h = sym (λ i. prk_derive ex (a i) (b i) prk (c i) sk) ∙ h

  pub key_of_moved :
      {dh dh' : Bool} {s s' : Suite} {prk prk' : Bytes} (pk sk : Bytes) {out : Result Bytes}
      → dh ≡ dh'
      → s ≡ s'
      → prk ≡ prk'
      → prk_derive ex dh s prk pk sk ≡ out
      → prk_derive ex dh' s' prk' pk sk ≡ out
  key_of_moved pk sk a b c h = sym (λ i. prk_derive ex (a i) (b i) (c i) pk sk) ∙ h

  pub th4_moved :
      {s s' : Suite} {t t' c c' : Bytes} {out : Result Bytes}
      → s ≡ s'
      → t ≡ t'
      → c ≡ c'
      → th4_calculate ex s.edhoc_hash t c ≡ out
      → th4_calculate ex s'.edhoc_hash t' c' ≡ out
  th4_moved a b c h = sym (λ i. th4_calculate ex ((a i).edhoc_hash) (b i) (c i)) ∙ h
