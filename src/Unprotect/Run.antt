-- ===== src/Unprotect/Run.antt =====
-- `oscore2coap` of src/oscore/oscore2coap.c.
use zephyr_uoscore_uedhoc.Context.{server}
use zephyr_uoscore_uedhoc.Prelude.{ℕ, Bool, Option, false, if◌then◌else◌, none, some, true}
use zephyr_uoscore_uedhoc.Context.{◌>>=◌, ◌>>◌, Action, call, modify, pure, reads}
use zephyr_uoscore_uedhoc.Context.Update.{context_update, set_rc}
use zephyr_uoscore_uedhoc.Protect.{is_request_code}
use zephyr_uoscore_uedhoc.Crypto.{External}
use zephyr_uoscore_uedhoc.Replay.{replay_check, update_replay_window}
use zephyr_uoscore_uedhoc.Memory.{
  ByteArray, Bytes, array_equals, deref, err, oscore_kid_recipent_id_mismatch,
}
use zephyr_uoscore_uedhoc.Coap.Packet.{Output, buf2coap, coap2buf}
use zephyr_uoscore_uedhoc.Coap.{CoapPacket}
use zephyr_uoscore_uedhoc.OscoreOption.{CompressedOption, oscore_option_parser}
use zephyr_uoscore_uedhoc.Unprotect.Steps.{o_coap_pkg_generate, payload_decrypt}

unfoldable pub is_request : CoapPacket → Bool
is_request p = is_request_code p.header.code

-- The KID of the option is compared with the recipient ID.
unfoldable pub check_kid : ByteArray → Action (Unit {0})
check_kid kid = do
  same ← reads (λ c. array_equals c.rc.recipient_id kid)
  if same then pure tt else call (err oscore_kid_recipent_id_mismatch)

-- Of the PIV the replay check takes the first byte.
unfoldable pub check_replay : ByteArray → Action (Unit {0})
check_replay piv = do
  number ← call (deref piv.ptr)
  reads (λ c. replay_check number c.rc.replay_window)

-- The window after a request was decrypted.
unfoldable pub record_number : ByteArray → Action (Unit {0})
record_number piv = do
  number ← call (deref piv.ptr)
  modify (λ c.
      set_rc (record (c.rc) { replay_window = update_replay_window number c.rc.replay_window }) c)

-- The uninitialised local variables of the call.
pub record Locals : Type 0 where
  pub oscore_packet : CoapPacket
  pub oscore_option : CompressedOption
  pub plaintext_bytes : Bytes

-- The flag `*oscore_pkg_flag`, and what was written to the output buffer; an error stands for
-- itself, without the flag.
pub record Unprotected : Type 0 where
  pub oscore_pkg_flag : Bool
  pub output : Option Output

module _ (ex : External) where
  -- The checks of a request, and the update of the context for it.
  unfoldable pub accept_request : CoapPacket → CompressedOption → Action (Unit {0})
  unfolding check_kid check_replay
  accept_request p o = do
    check_kid o.kid
    check_replay o.piv
    context_update ex server p.options o.piv o.kid_context

  -- Decryption, the update of the replay window, and the CoAP packet. `cap` is the size of the
  -- output buffer.
  unfoldable pub open_payload : CoapPacket → CompressedOption → Bytes → ℕ → Action Output
  open_payload p o old cap = do
    plaintext ← reads (payload_decrypt ex p old)
    (if is_request p then record_number o.piv else pure tt)
    o_coap_packet ← call (o_coap_pkg_generate plaintext p)
    call (coap2buf o_coap_packet cap)

  -- A packet with an OSCORE option.
  unfoldable pub unprotect_packet : CoapPacket → CompressedOption → Bytes → ℕ → Action Output
  unprotect_packet p o old cap = do
    (if is_request p then accept_request p o else pure tt)
    open_payload p o old cap

  unfoldable pub oscore2coap : Locals → ByteArray → ℕ → Action Unprotected
  oscore2coap locals in_ cap = do
    p ← call (buf2coap in_ locals.oscore_packet)
    o ← call (oscore_option_parser p.options locals.oscore_option false)
    let open_packet = (do
      out ← unprotect_packet p o.0 locals.plaintext_bytes cap
      pure (record { oscore_pkg_flag = true; output = some out }))
    if o.1 then open_packet else pure (record { oscore_pkg_flag = false; output = none })
