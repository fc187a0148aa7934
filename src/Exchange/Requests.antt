-- ===== src/Exchange/Requests.antt =====
-- `coap2oscore` (src/oscore/coap2oscore.c) and then `oscore2coap` (src/oscore/oscore2coap.c) on a
-- request.
use zephyr_uoscore_uedhoc.Prelude.{
  ℕ, ◌≡◌, [], arith, false, length, refl, true, ◌++◌, ◌<◌, ◌==◌, ◌∷◌, ◌≤◌, ap, some, ◌+◌, ◌∙◌,
}
use zephyr_uoscore_uedhoc.Context.{◌>>=◌, Context}
use zephyr_uoscore_uedhoc.Exchange.Packets.{
  coap2buf-o_coap_pkg_generate, o_coap_pkg_generate_lem, outer, outer-IsReadable,
}
use zephyr_uoscore_uedhoc.Unprotect.Run.{
  is_request, open_payload, record_number, Locals, oscore2coap, unprotect_packet, accept_request,
}
use zephyr_uoscore_uedhoc.Memory.{Bytes, deref, ok, of_bytes}
use zephyr_uoscore_uedhoc.Exchange.Responses.{drop-cons, shown-nil}
use zephyr_uoscore_uedhoc.Exchange.{IsProtectable, plaintext_of}
use zephyr_uoscore_uedhoc.Replay.{update_replay_window}
use zephyr_uoscore_uedhoc.Exchange.Steps.{Decrypts, length-outer, bind_returns}
use zephyr_uoscore_uedhoc.Coap.{CoapPacket}
use zephyr_uoscore_uedhoc.OscoreOption.{CompressedOption, oscore_option_parser, parse_value}
use zephyr_uoscore_uedhoc.Protect.{is_request_code, code_req_post}
use zephyr_uoscore_uedhoc.Context.Update.{set_rc}
use zephyr_uoscore_uedhoc.OscoreOption.Wire.{wire, context_bytes}
use zephyr_uoscore_uedhoc.Coap.Write.{packet_bytes, payload_bytes}
use zephyr_uoscore_uedhoc.Coap.Pointers.{shown, spread, parsed-spread}
use zephyr_uoscore_uedhoc.OscoreOption.RoundTrip.{parse_value-wire, received}
use zephyr_uoscore_uedhoc.Crypto.{External}
use zephyr_uoscore_uedhoc.Exchange.Contexts.{Encodes, Peers, ReadsContent, piv_bytes}
use zephyr_uoscore_uedhoc.Context.NonceLaws.{nonce_plain}
use zephyr_uoscore_uedhoc.Context.PivLaws.{length-little_endian, piv_size, piv_size_bounds}
use zephyr_uoscore_uedhoc.Coap.Layout.{layout}
use zephyr_uoscore_uedhoc.Exchange.Accepted.{accept_request_lem, accepted}
use zephyr_uoscore_uedhoc.Coap.Read.{NoMarker, buf2coap-packet_bytes}
use zephyr_uoscore_uedhoc.Context.Nonce.{xor_bytes}

-- The context once a request is opened, whose PIV begins with the byte `b`.
abbrev pub recorded : ℕ → Context → Context
recorded b c =
    set_rc (record (c.rc) { replay_window = update_replay_window b c.rc.replay_window }) c

parse_value-shown :
    (piv ctx kid tail : Bytes) (out : CompressedOption)
    → (0 < length piv) × (length piv ≤ 5)
    → length ctx ≤ 8
    → length kid ≤ 7
    → parse_value
        (record {
          delta = 9;
          len = length (wire piv ctx kid);
          value = shown (length (wire piv ctx kid)) (wire piv ctx kid) tail;
          option_number = 9;
        })
        out
      ≡ ok (received piv ctx kid tail)
parse_value-shown piv ctx kid tail out lp lc lk =
    let there : (length (wire piv ctx kid) == 0) ≡ false = ground arith in
    rw there (parse_value-wire piv ctx kid tail 9 out lp lc lk)

pub oscore_option_parser-wire :
    (piv ctx kid tail : Bytes) (out : CompressedOption)
    → (0 < length piv) × (length piv ≤ 5)
    → length ctx ≤ 8
    → length kid ≤ 7
    → oscore_option_parser
        (record {
          delta = 9;
          len = length (wire piv ctx kid);
          value = shown (length (wire piv ctx kid)) (wire piv ctx kid) tail;
          option_number = 9;
        }
          ∷ [])
        out
        false
      ≡ ok (received piv ctx kid tail, true)
unfolding oscore_option_parser
oscore_option_parser-wire piv ctx kid tail out lp lc lk =
    rw (parse_value-shown piv ctx kid tail out lp lc lk)

module _ (ex : External) where
  open_payload_request :
      (p : CoapPacket) (code : ℕ) (value c a b old : Bytes) (o : CompressedOption) (first size : ℕ)
      (recipient : Context)
      → IsProtectable p
      → is_request_code code ≡ true
      → deref o.piv.ptr ≡ ok first
      → Decrypts ex recipient old p c
      → length old ≡ 128
      → length (packet_bytes p) ≤ size
      → size < 4294967296
      → open_payload ex (spread (outer p code value c) a b []) o old size recipient ≡ (
        ok (record { bytes = packet_bytes p; len = length (packet_bytes p) }),
        recorded first recipient,
      )
  unfolding open_payload is_request record_number
  open_payload_request p code value c a b old o first size recipient h request piv dec len fits
        small =
      let plaintext_fits : length (plaintext_of p) < 128 = h.plaintext_fits in
      let (j, junk, behind) = drop-cons (length (plaintext_of p)) old (omega arith) in
      let q = spread (outer p code value c) a b [] in
      let opened = dec q refl (shown-nil c) in
      let generated = o_coap_pkg_generate_lem p code value c a b [] j junk h in
      let written =
        coap2buf-o_coap_pkg_generate p a (payload_bytes p ++ j ∷ junk) (j ∷ junk) size
          h.readable.packet fits small in
      rw (◌>>=◌, opened, request, piv, behind, generated, written) (rw (request, piv) refl)

  pub oscore2coap_request :
      (p : CoapPacket) (kid ctx nonce aad c : Bytes) (first size : ℕ) (locals : Locals)
      (sender recipient : Context)
      → ReadsContent ex
      → Peers kid ctx sender recipient
      → Encodes ex kid aad sender
      → xor_bytes sender.cc.common_iv.len
          (nonce_plain kid (piv_bytes sender.sc.sender_seq_num))
          sender.cc.common_iv.ptr
        ≡ ok nonce
      → IsProtectable p
      → (let piv = piv_bytes sender.sc.sender_seq_num in
          let w = wire piv ctx kid in
          length w < 13
          → NoMarker w
          → ((tail : Bytes) → deref (piv ++ tail) ≡ ok first)
          → length c ≡ length (plaintext_of p) + 8
          → Decrypts ex (accepted recipient piv nonce aad) locals.plaintext_bytes p c
          → length locals.plaintext_bytes ≡ 128
          → length (packet_bytes p) + 11 + length w < 4294967296
          → length (packet_bytes p) ≤ size
          → size < 4294967296
          → oscore2coap ex locals
              (of_bytes (packet_bytes (outer p code_req_post w c)))
              size
              recipient
            ≡ (
              ok (record {
                oscore_pkg_flag = true;
                output = some (record { bytes = packet_bytes p; len = length (packet_bytes p) });
              }),
              recorded first (accepted recipient piv nonce aad),
            ))
  unfolding oscore2coap unprotect_packet is_request
  oscore2coap_request p kid ctx nonce aad c first size locals sender recipient law h e x ready lt n
        piv_first size_c dec len short fits small =
      let number = sender.sc.sender_seq_num in
      let piv = piv_bytes number in
      let w = wire piv ctx kid in
      let bounds = piv_size_bounds number in
      let piv_len = length-little_endian (piv_size number) number in
      let v = ready.readable.packet in
      let q = outer p code_req_post w c in
      let readable = outer-IsReadable p code_req_post w c v lt n in
      let total = length-outer p code_req_post w c v lt size_c in
      let parse =
        buf2coap-packet_bytes q locals.oscore_packet readable (omega arith)
        ∙ ap ok (parsed-spread q) in
      let a = layout q.options ++ payload_bytes q in
      let b = payload_bytes q in
      let option =
        oscore_option_parser-wire piv ctx kid b locals.oscore_option (omega arith, omega arith)
          h.ctx_len h.kid_len in
      let o = received piv ctx kid b in
      let taken =
        accept_request_lem ex (spread q a b []) kid ctx nonce aad b sender recipient law h e x in
      let opened =
        open_payload_request p code_req_post w c a b locals.plaintext_bytes o first size
          (accepted recipient piv nonce aad) ready refl
          (piv_first (context_bytes ctx ++ (kid ++ b))) dec len fits small in
      let unprotected =
        bind_returns (accept_request ex (spread q a b []) o)
          (λ _. open_payload ex (spread q a b []) o locals.plaintext_bytes size) recipient
          (accepted recipient piv nonce aad) tt taken
        ∙ opened in
      rw (◌>>=◌, parse, option, unprotected) (rw unprotected refl)
