-- ===== src/Exchange/Responses.antt =====
-- `coap2oscore` (src/oscore/coap2oscore.c) and then `oscore2coap` (src/oscore/oscore2coap.c) on a
-- response.
use zephyr_uoscore_uedhoc.Prelude.{
  ℕ, ◌≡◌, [], append-nil, arith, drop, false, length, refl, suc, zero, ◌++◌, ◌<◌, ◌==◌, ◌∷◌, ◌≤◌,
  ap, some, true, ◌+◌, ◌∙◌,
}
use zephyr_uoscore_uedhoc.Context.{◌>>=◌}
use zephyr_uoscore_uedhoc.Exchange.{IsProtectable, plaintext_of}
use zephyr_uoscore_uedhoc.Coap.{CoapPacket}
use zephyr_uoscore_uedhoc.Coap.Write.{packet_bytes, payload_bytes}
use zephyr_uoscore_uedhoc.Coap.Pointers.{shown, spread, parsed-spread}
use zephyr_uoscore_uedhoc.Unprotect.Run.{
  is_request, open_payload, Locals, oscore2coap, unprotect_packet,
}
use zephyr_uoscore_uedhoc.Exchange.Packets.{
  coap2buf-o_coap_pkg_generate, o_coap_pkg_generate_lem, outer, outer-IsReadable,
}
use zephyr_uoscore_uedhoc.Memory.{Bytes, ok, of_bytes}
use zephyr_uoscore_uedhoc.Protect.{
  is_request_code, code_resp_changed, max_plaintext_len, code_empty,
}
use zephyr_uoscore_uedhoc.Context.{Context}
use zephyr_uoscore_uedhoc.Exchange.Steps.{Decrypts, length-outer, outer_code, protect_packet_lem}
use zephyr_uoscore_uedhoc.Crypto.{External}
use zephyr_uoscore_uedhoc.OscoreOption.{CompressedOption, oscore_option_parser}
use zephyr_uoscore_uedhoc.Exchange.Cipher.{Agree, IsCipher}
use zephyr_uoscore_uedhoc.Coap.Read.{buf2coap-packet_bytes}
use zephyr_uoscore_uedhoc.Coap.Layout.{layout}
use zephyr_uoscore_uedhoc.Coap.Packet.{Output}
use zephyr_uoscore_uedhoc.Protect.Run.{coap2oscore, oscore_option_for}
use zephyr_uoscore_uedhoc.Protect.Steps.{response_option}
use zephyr_uoscore_uedhoc.Exchange.Contexts.{sent}

pub drop-cons :
    (n : ℕ) (bytes : Bytes)
    → n < length bytes
    → (j : ℕ) × (junk : Bytes) × (drop n bytes ≡ j ∷ junk)
drop-cons n [] h = absurd (omega arith)
drop-cons zero (b ∷ bytes) h = (b, bytes, refl)
drop-cons (suc n) (b ∷ bytes) h = drop-cons n bytes (omega arith)

pub shown-nil : (bytes : Bytes) → shown (length bytes) bytes [] ≡ bytes
shown-nil [] = refl
shown-nil (b ∷ bytes) =
    let there : (suc (length bytes) == 0) ≡ false = ground arith in rw (there, append-nil)

oscore_option_parser_empty :
    (o : CompressedOption)
    → oscore_option_parser
        (record { delta = 9; len = 0; value = []; option_number = 9 } ∷ [])
        o
        false
      ≡ ok (record o { h = 0; k = 0; n = 0 }, true)
unfolding oscore_option_parser
oscore_option_parser_empty o = refl

module _ (ex : External) where
  -- What the recipient of an outer packet returns, once the context is set for it.
  pub open_payload_response :
      (p : CoapPacket) (code : ℕ) (value c a b old : Bytes) (o : CompressedOption) (size : ℕ)
      (recipient : Context)
      → IsProtectable p
      → is_request_code code ≡ false
      → Decrypts ex recipient old p c
      → length old ≡ 128
      → length (packet_bytes p) ≤ size
      → size < 4294967296
      → open_payload ex (spread (outer p code value c) a b []) o old size recipient
        ≡ (ok (record { bytes = packet_bytes p; len = length (packet_bytes p) }), recipient)
  unfolding open_payload is_request
  open_payload_response p code value c a b old o size recipient h response dec len fits small =
      let plaintext_fits : length (plaintext_of p) < 128 = h.plaintext_fits in
      let (j, junk, behind) = drop-cons (length (plaintext_of p)) old (omega arith) in
      let q = spread (outer p code value c) a b [] in
      let opened = dec q refl (shown-nil c) in
      let generated = o_coap_pkg_generate_lem p code value c a b [] j junk h in
      let written =
        coap2buf-o_coap_pkg_generate p a (payload_bytes p ++ j ∷ junk) (j ∷ junk) size
          h.readable.packet fits small in
      rw (◌>>=◌, opened, response, behind, generated, written) (rw response refl)

  oscore2coap_response :
      (p : CoapPacket) (c : Bytes) (locals : Locals) (size : ℕ) (recipient : Context)
      → IsProtectable p
      → length c ≡ length (plaintext_of p) + 8
      → Decrypts ex recipient locals.plaintext_bytes p c
      → length locals.plaintext_bytes ≡ 128
      → length (packet_bytes p) + 11 < 4294967296
      → length (packet_bytes p) ≤ size
      → size < 4294967296
      → oscore2coap ex locals
          (of_bytes (packet_bytes (outer p code_resp_changed [] c)))
          size
          recipient
        ≡ (
          ok (record {
            oscore_pkg_flag = true;
            output = some (record { bytes = packet_bytes p; len = length (packet_bytes p) });
          }),
          recipient,
        )
  unfolding oscore2coap unprotect_packet is_request
  oscore2coap_response p c locals size recipient h size_c dec len short fits small =
      let v = h.readable.packet in
      let q = outer p code_resp_changed [] c in
      let readable = outer-IsReadable p code_resp_changed [] c v (omega arith) tt in
      let total = length-outer p code_resp_changed [] c v (omega arith) size_c in
      let parse =
        buf2coap-packet_bytes q locals.oscore_packet readable (omega arith)
        ∙ ap ok (parsed-spread q) in
      let opened =
        open_payload_response p code_resp_changed [] c (layout q.options ++ payload_bytes q)
          (payload_bytes q) locals.plaintext_bytes
          (record (locals.oscore_option) { h = 0; k = 0; n = 0 }) size recipient h refl dec len fits
          small in
      rw (◌>>=◌, parse, oscore_option_parser_empty, opened) (rw opened refl)

  -- A response whose options are of class E is protected, and the recipient of the result, with
  -- the sender's nonce and AAD and the sender's key as its recipient key, opens it to the bytes
  -- that the sender was given; neither context changes.
  pub oscore2coap-coap2oscore_response :
      (p pkt : CoapPacket) (buf : Bytes) (locals : Locals) (size size' : ℕ)
      (sender recipient : Context)
      → IsCipher ex
      → Agree ex sender recipient
      → IsProtectable p
      → is_request_code p.header.code ≡ false
      → length locals.plaintext_bytes ≡ max_plaintext_len
      → length (packet_bytes p) + 11 ≤ size
      → size < 4294967296
      → length (packet_bytes p) ≤ size'
      → size' < 4294967296
      → (out : Output) × (coap2oscore ex pkt buf (of_bytes (packet_bytes p)) size sender
          ≡ (ok out, sender))
        × (oscore2coap ex locals (record { len = out.len; ptr = out.bytes }) size' recipient ≡ (
          ok (record {
            oscore_pkg_flag = true;
            output = some (record { bytes = packet_bytes p; len = length (packet_bytes p) });
          }),
          recipient,
        ))
  unfolding coap2oscore oscore_option_for
  oscore2coap-coap2oscore_response p pkt buf locals size size' sender recipient law agree h response
        len fits small fits' small' =
      let a = layout p.options ++ payload_bytes p in
      let b = payload_bytes p in
      let parse = buf2coap-packet_bytes p pkt h.readable (omega arith) ∙ ap ok (parsed-spread p) in
      let code : outer_code p.header.code ≡ code_resp_changed = rw response refl in
      let not_empty : (p.header.code == code_empty) ≡ false = ground (arith, response) in
      let option : oscore_option_for ex (spread p a b []) buf sender
          ≡ (ok response_option, sender) =
        rw response refl in
      let (c, sent, size_c, dec) =
        protect_packet_lem ex p a b [] [] [] buf locals.plaintext_bytes code_resp_changed size
          sender sender recipient code law agree h option (omega arith) tt (omega arith) small in
      (
        record {
          bytes = packet_bytes (outer p code_resp_changed [] c);
          len = length (packet_bytes (outer p code_resp_changed [] c));
        },
        rw (◌>>=◌, parse, not_empty, sent),
        oscore2coap_response p c locals size' recipient h size_c dec len (omega arith) fits' small',
      )
