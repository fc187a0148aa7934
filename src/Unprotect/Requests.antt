-- ===== src/Unprotect/Requests.antt =====
-- How `oscore2coap` treats requests: the identifiers, the PIV and the replay window.
use zephyr_uoscore_uedhoc.Context.{server, Action, pure}
use zephyr_uoscore_uedhoc.Context.{◌>>=◌}
use zephyr_uoscore_uedhoc.Prelude.{ℕ, List, [], arith, false, true, ◌≡◌, refl, Bool, some}
use zephyr_uoscore_uedhoc.Memory.{
  ByteArray, array_equals, deref, err, fault, ok, oscore_kid_recipent_id_mismatch, Bytes, Result,
}
use zephyr_uoscore_uedhoc.Unprotect.Run.{
  Locals, accept_request, is_request, oscore2coap, record_number, unprotect_packet, open_payload,
  Unprotected,
}
use zephyr_uoscore_uedhoc.Coap.{CoapPacket, CoapOption}
use zephyr_uoscore_uedhoc.Crypto.{External}
use zephyr_uoscore_uedhoc.Coap.Packet.{buf2coap, Output}
use zephyr_uoscore_uedhoc.Context.Derive.{derive_recipient_key}
use zephyr_uoscore_uedhoc.Context.Update.{
  context_update, set_rc, update_keys, update_nonce_aad, update_piv,
}
use zephyr_uoscore_uedhoc.OscoreOption.{CompressedOption, oscore_option_parser}
use zephyr_uoscore_uedhoc.Unprotect.Steps.{payload_decrypt}
use zephyr_uoscore_uedhoc.Context.{Context}
use zephyr_uoscore_uedhoc.Replay.{replay_check}

-- The context with another replay window.
abbrev pub with_window : List ℕ → Context → Context
with_window w c = set_rc (record (c.rc) { replay_window = w }) c

abbrev keep_window {ℓ} : {A : Type ℓ} → List ℕ → A × Context → A × Context
keep_window w (r, c) = (r, with_window w c)

abbrev opened : Output → Action Unprotected
opened out = pure (record { oscore_pkg_flag = true; output = some out })

module _ (ex : External) where
  -- A request whose parsed option has the KID of another recipient.
  pub oscore2coap-mismatch :
      (locals : Locals) (in_ : ByteArray) (size : ℕ) (c : Context) (p : CoapPacket)
      (o : CompressedOption)
      → buf2coap in_ locals.oscore_packet ≡ ok p
      → oscore_option_parser p.options locals.oscore_option false ≡ ok (o, true)
      → is_request p ≡ true
      → array_equals c.rc.recipient_id o.kid ≡ ok false
      → oscore2coap ex locals in_ size c ≡ (err oscore_kid_recipent_id_mismatch, c)
  unfolding oscore2coap unprotect_packet accept_request
  oscore2coap-mismatch locals in_ size c p o e option request other = ground arith

  -- A request for this recipient whose parsed option has a NULL pointer for its PIV.
  pub null_piv :
      (locals : Locals) (in_ : ByteArray) (size : ℕ) (c : Context) (p : CoapPacket)
      (o : CompressedOption)
      → buf2coap in_ locals.oscore_packet ≡ ok p
      → oscore_option_parser p.options locals.oscore_option false ≡ ok (o, true)
      → is_request p ≡ true
      → array_equals c.rc.recipient_id o.kid ≡ ok true
      → o.piv.ptr ≡ []
      → oscore2coap ex locals in_ size c ≡ (fault, c)
  unfolding oscore2coap unprotect_packet accept_request deref
  null_piv locals in_ size c p o e option request same no_piv = ground arith

  update_piv_window :
      (w : List ℕ) (piv : ByteArray) (c : Context)
      → update_piv piv (with_window w c) ≡ keep_window w (update_piv piv c)
  unfolding update_piv
  update_piv_window w piv c = ground arith

  update_keys_window :
      (w : List ℕ) (id : ByteArray) (c : Context)
      → update_keys ex id (with_window w c) ≡ keep_window w (update_keys ex id c)
  unfolding update_keys derive_recipient_key
  update_keys_window w id c = ground arith

  update_nonce_aad_window :
      (w : List ℕ) (options : List CoapOption) (c : Context)
      → update_nonce_aad ex options (with_window w c)
        ≡ keep_window w (update_nonce_aad ex options c)
  unfolding update_nonce_aad
  update_nonce_aad_window w options c = ground arith

  context_update_window :
      (w : List ℕ) (options : List CoapOption) (piv id : ByteArray) (c : Context)
      → context_update ex server options piv id (with_window w c)
        ≡ keep_window w (context_update ex server options piv id c)
  unfolding context_update
  context_update_window w options piv id c =
      let piv_ctx = (update_piv piv c).1 in
      ground (
        arith,
        update_piv_window w piv c,
        update_keys_window w id piv_ctx,
        update_nonce_aad_window w options (update_keys ex id piv_ctx).1,
      )

  accept_request_window :
      (w : List ℕ) (p : CoapPacket) (o : CompressedOption) (c : Context)
      → accept_request ex p o (with_window w c) ≡ keep_window w (accept_request ex p o c)
  unfolding accept_request replay_check
  accept_request_window w p o c =
      ground (arith, context_update_window w p.options o.piv o.kid_context c)

  open_payload_window :
      (w : List ℕ) (p : CoapPacket) (o : CompressedOption) (old : Bytes) (size : ℕ) (c : Context)
      → (open_payload ex p o old size (with_window w c)).0 ≡ (open_payload ex p o old size c).0
  unfolding open_payload payload_decrypt record_number
  open_payload_window w p o old size c = ground arith

  unprotect_packet_window :
      (w : List ℕ) (p : CoapPacket) (o : CompressedOption) (old : Bytes) (size : ℕ) (c : Context)
      → (unprotect_packet ex p o old size (with_window w c)).0
        ≡ (unprotect_packet ex p o old size c).0
  unfolding unprotect_packet
  unprotect_packet_window w p o old size c = ground (
    arith,
    accept_request_window w p o c,
    open_payload_window w p o old size c,
    open_payload_window w p o old size (accept_request ex p o c).1,
  )

  opened_window :
      (m m' : Result Output × Context)
      → m.0 ≡ m'.0
      → (((λ (c : Context). m) >>= opened) m.1).0 ≡ (((λ (c : Context). m') >>= opened) m.1).0
  opened_window m m' e = ground arith

  oscore2coap_parsed :
      (locals : Locals) (in_ : ByteArray) (size : ℕ) (c : Context) (w : List ℕ) (p : CoapPacket)
      (o : Result (CompressedOption × Bool))
      → buf2coap in_ locals.oscore_packet ≡ ok p
      → oscore_option_parser p.options locals.oscore_option false ≡ o
      → (oscore2coap ex locals in_ size (with_window w c)).0 ≡ (oscore2coap ex locals in_ size c).0
  unfolding oscore2coap
  oscore2coap_parsed locals in_ size c w p (ok (o, true)) e f =
      rw (e, f)
        (opened_window (unprotect_packet ex p o locals.plaintext_bytes size (with_window w c))
          (unprotect_packet ex p o locals.plaintext_bytes size c)
          (unprotect_packet_window w p o locals.plaintext_bytes size c))
  oscore2coap_parsed locals in_ size c w p (ok (o, false)) e f = rw (e, f)
  oscore2coap_parsed locals in_ size c w p (err x) e f = rw (e, f)
  oscore2coap_parsed locals in_ size c w p fault e f = rw (e, f)

  oscore2coap_cases :
      (locals : Locals) (in_ : ByteArray) (size : ℕ) (c : Context) (w : List ℕ)
      (r : Result CoapPacket)
      → buf2coap in_ locals.oscore_packet ≡ r
      → (oscore2coap ex locals in_ size (with_window w c)).0 ≡ (oscore2coap ex locals in_ size c).0
  unfolding oscore2coap
  oscore2coap_cases locals in_ size c w (ok p) e = oscore2coap_parsed locals in_ size c w p _ e refl
  oscore2coap_cases locals in_ size c w (err x) e = rw e
  oscore2coap_cases locals in_ size c w fault e = rw e

  -- Nothing that `oscore2coap` returns depends on the replay window.
  pub oscore2coap_replay :
      (locals : Locals) (in_ : ByteArray) (size : ℕ) (c : Context) (w : List ℕ)
      → (oscore2coap ex locals in_ size (with_window w c)).0 ≡ (oscore2coap ex locals in_ size c).0
  oscore2coap_replay locals in_ size c w = oscore2coap_cases locals in_ size c w _ refl
