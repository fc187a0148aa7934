-- ===== src/Exchange/Steps.antt =====
-- `protect_packet` and `open_payload`, the ends of `coap2oscore` (src/oscore/coap2oscore.c) and of
-- `oscore2coap` (src/oscore/oscore2coap.c) that follow on the option and on the context.
use zephyr_uoscore_uedhoc.Prelude.{
  ℕ, ◌≡◌, append-nil, arith, drop, false, if◌then◌else◌, length, length-append, ◌++◌, ◌+◌, ◌<◌,
  ◌==◌, ◌≤◌, ap, ◌∙◌, [],
}
use zephyr_uoscore_uedhoc.Exchange.Packets.{oscore_pkg_generate_lem, outer, outer-IsReadable}
use zephyr_uoscore_uedhoc.Exchange.Cipher.{Agree, IsCipher, payload_decrypt-plaintext_encrypt}
use zephyr_uoscore_uedhoc.Protect.{code_req_post, code_resp_changed, is_request_code}
use zephyr_uoscore_uedhoc.Coap.Write.{
  IsPacket, coap2buf-packet_bytes, length-packet_bytes, packet_bytes, payload_bytes,
}
use zephyr_uoscore_uedhoc.Unprotect.Steps.{payload_decrypt}
use zephyr_uoscore_uedhoc.Memory.{Bytes, ok}
use zephyr_uoscore_uedhoc.Exchange.{IsProtectable, plaintext_of}
use zephyr_uoscore_uedhoc.Coap.Pointers.{spread}
use zephyr_uoscore_uedhoc.Exchange.Plaintext.{e_u_options_extract-e, make_plaintext_lem}
use zephyr_uoscore_uedhoc.Context.{Context, Action, call, reads}
use zephyr_uoscore_uedhoc.Options.{coap_option_oscore}
use zephyr_uoscore_uedhoc.Coap.Layout.{layout}
use zephyr_uoscore_uedhoc.Coap.{CoapPacket}
use zephyr_uoscore_uedhoc.Protect.Run.{oscore_option_for, protect_packet}
use zephyr_uoscore_uedhoc.Coap.Read.{NoMarker}
use zephyr_uoscore_uedhoc.Coap.Fields.{option_header_small}
use zephyr_uoscore_uedhoc.Crypto.{External}
use zephyr_uoscore_uedhoc.Context.{◌>>=◌}
use zephyr_uoscore_uedhoc.Coap.Packet.{Output, coap2buf}
use zephyr_uoscore_uedhoc.Protect.Extract.{Split}
use zephyr_uoscore_uedhoc.OscoreOption.{OscoreOption}
use zephyr_uoscore_uedhoc.Protect.Parts.{oscore_pkg_generate}
use zephyr_uoscore_uedhoc.Protect.Steps.{plaintext_encrypt, plaintext_length}

-- A call that returns is followed by the rest, in the context that it leaves.
pub bind_returns :
    {A B : Type 0} (m : Action A) (f : A → Action B) (c c' : Context) (a : A)
    → m c ≡ (ok a, c')
    → (m >>= f) c ≡ f a c'
bind_returns m f c c' a e = rw (e, ◌>>=◌) (ap (λ r. f a r.1) e)

-- The code of the packet that protects one of this code.
abbrev pub outer_code : ℕ → ℕ
outer_code code = if is_request_code code then code_req_post else code_resp_changed

pub length-outer :
    (p : CoapPacket) (code : ℕ) (value c : Bytes)
    → IsPacket p
    → length value < 13
    → length c ≡ length (plaintext_of p) + 8
    → length (packet_bytes (outer p code value c)) ≡ length (packet_bytes p) + 11 + length value
length-outer p code value c v lt e =
    let first = option_header_small 9 (length value) (omega arith) lt in
    let options : length (layout (outer p code value c).options) ≡ 1 + length value =
      rw (first, append-nil) (omega arith) in
    let full : (length c == 0) ≡ false = ground arith in
    let tail : length (payload_bytes (outer p code value c)) ≡ 1 + length c =
      rw full (omega arith) in
    omega (
      arith,
      length-packet_bytes p,
      length-packet_bytes (outer p code value c),
      length-append (layout p.options) (payload_bytes p),
    )

-- The recipient of the ciphertext `c` decrypts it to the plaintext of `p`, in whatever packet.
abbrev pub Decrypts : External → Context → Bytes → CoapPacket → Bytes → Type 0
Decrypts ex recipient old p c =
    (r : CoapPacket)
    → r.payload_len ≡ length c
    → r.payload ≡ c
    → payload_decrypt ex r old recipient
      ≡ ok (record {
        len = length (plaintext_of p);
        ptr = plaintext_of p ++ drop (length (plaintext_of p)) old;
      })

module _ (ex : External) where
  -- The rest of the call behind the OSCORE option.
  abbrev finish : CoapPacket → Split → Bytes → ℕ → OscoreOption → Action Output
  finish p s plaintext size o = do
    ciphertext ← reads (plaintext_encrypt ex plaintext (plaintext_length p s.e_options_len))
    oscore_pkt ← call (oscore_pkg_generate p s.u_options ciphertext o)
    call (coap2buf oscore_pkt size)

  finish_lem :
      (p : CoapPacket) (s : Split) (m c : Bytes) (size : ℕ) (o : OscoreOption) (later : Context)
      (q : CoapPacket) (out : Output)
      → plaintext_length p s.e_options_len ≡ length m
      → plaintext_encrypt ex m (length m) later ≡ ok c
      → s.u_options ≡ []
      → oscore_pkg_generate p [] c o ≡ ok q
      → coap2buf q size ≡ ok out
      → finish p s m size o later ≡ (ok out, later)
  finish_lem p s m c size o later q out len enc us pkg written =
      rw (len, ◌>>=◌, enc, us, pkg, written)

  -- The sender of a packet with options of class E writes the outer packet with the option's value
  -- and a ciphertext that the recipient decrypts.
  pub protect_packet_lem :
      (p : CoapPacket) (a b d value junk buf old : Bytes) (code size : ℕ)
      (sender later recipient : Context)
      → outer_code p.header.code ≡ code
      → IsCipher ex
      → Agree ex later recipient
      → IsProtectable p
      → oscore_option_for ex (spread p a b d) buf sender ≡ (
        ok (record {
          option_number = coap_option_oscore;
          len = length value;
          value = value ++ junk;
        }),
        later,
      )
      → length value < 13
      → NoMarker value
      → length (packet_bytes p) + 11 + length value ≤ size
      → size < 4294967296
      → (c : Bytes) × (protect_packet ex (spread p a b d) buf size sender ≡ (
        ok (record {
          bytes = packet_bytes (outer p code value c);
          len = length (packet_bytes (outer p code value c));
        }),
        later,
      ))
        × (length c ≡ length (plaintext_of p) + 8)
        × Decrypts ex recipient old p c
  unfolding protect_packet
  protect_packet_lem p a b d value junk buf old code size sender later recipient outer_is law agree
        h o lt n fits small =
      let (s, split, es, len, us) = e_u_options_extract-e p b h in
      let (plain, plain_len) = make_plaintext_lem p a b d s h es len in
      let room : length (plaintext_of p) ≤ 128 =
        let f : length (plaintext_of p) < 128 = h.plaintext_fits in omega arith in
      let (c, enc, size_c, dec) =
        payload_decrypt-plaintext_encrypt ex later recipient (plaintext_of p) old law agree room in
      let option : OscoreOption = record {
        option_number = coap_option_oscore;
        len = length value;
        value = value ++ junk;
      } in
      let (q, pkg, same) =
        oscore_pkg_generate_lem p a b d value junk c code size h.readable.packet outer_is in
      let v = h.readable.packet in
      let is_packet = (outer-IsReadable p code value c v lt n).packet in
      let total = length-outer p code value c v lt size_c in
      let written =
        coap2buf-packet_bytes (outer p code value c) size is_packet (omega arith) small in
      (
        c,
        rw (split, plain)
            (bind_returns (oscore_option_for ex (spread p a b d) buf)
                (finish (spread p a b d) s (plaintext_of p) size) sender later option o
              ∙ finish_lem (spread p a b d) s (plaintext_of p) c size option later q _ plain_len enc
                  us pkg (same ∙ written)),
        size_c,
        dec,
      )
