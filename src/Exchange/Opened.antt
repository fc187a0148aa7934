-- ===== src/Exchange/Opened.antt =====
-- What `oscore2coap` (src/oscore/oscore2coap.c) makes of the plaintext of a packet.
use zephyr_uoscore_uedhoc.Prelude.{
  ℕ, ◌≡◌, List, [], arith, false, length, not, suc, u16, ◌&&◌, ◌++◌, ◌+◌, ◌-◌, ◌<◌, ◌==◌, ◌∷◌, ◌≤◌,
  refl, sym, ◌∙◌, append_assoc, length-append, sub32, ◌*◌, Bool-cases, drop, if◌then◌else◌, inl,
  inr,
}
use zephyr_uoscore_uedhoc.Unprotect.{e_options_size}
use zephyr_uoscore_uedhoc.Coap.Read.{NoMarker, IsTail, payload_bytes-IsTail}
use zephyr_uoscore_uedhoc.Coap.{CoapOption, CoapPacket}
use zephyr_uoscore_uedhoc.Coap.Decode.{oscore_packet_options_parser, options_loop}
use zephyr_uoscore_uedhoc.Memory.{Bytes, ok, ByteArray}
use zephyr_uoscore_uedhoc.Unprotect.Payload.{
  plaintext_options, skip_options, oscore_decrypted_payload_parser,
}
use zephyr_uoscore_uedhoc.Memory.Laws.{ok_inj}
use zephyr_uoscore_uedhoc.Coap.RoundTrip.{
  Numbered, oscore_packet_options_parser-layout, pointing_all,
}
use zephyr_uoscore_uedhoc.Exchange.{Ascending, IsProtectable, plaintext_of}
use zephyr_uoscore_uedhoc.Coap.Pointers.{shown}
use zephyr_uoscore_uedhoc.Coap.Layout.{layout}
use zephyr_uoscore_uedhoc.Coap.Packet.{max_options_len}
use zephyr_uoscore_uedhoc.Coap.Write.{payload_bytes, IsPacket}

skip_options-stop :
    (bs : Bytes) (n left c : ℕ) (r : Bytes)
    → NoMarker bs
    → length bs ≤ left
    → (not (c == 0xFF) && not (left - length bs == 0)) ≡ false
    → n + length bs < 65536
    → skip_options n left (bs ++ c ∷ r)
      ≡ ok (record {
        options_len = n + length bs;
        stop = record { ptr = c ∷ r; left = left - length bs };
      })
unfolding skip_options
skip_options-stop [] n left c r h le stop fits = ground (arith, stop)
skip_options-stop (b ∷ bs) n left c r (ne, h) le stop fits =
    let stop' : (not (c == 0xFF) && not (left - 1 - length bs == 0)) ≡ false =
      ground (arith, stop) in
    let ih =
      skip_options-stop bs (u16 (n + 1)) (left - 1) c r h (omega arith) stop' (omega arith) in
    ground (arith, ih)

packet_options_zero : (p : Bytes) → oscore_packet_options_parser e_options_size p 0 ≡ ok []
unfolding oscore_packet_options_parser options_loop
packet_options_zero p = refl

plaintext_options-tail :
    (bs tail : Bytes) (j : ℕ) (junk : Bytes) (options : List CoapOption)
    → oscore_packet_options_parser e_options_size (bs ++ (tail ++ j ∷ junk)) (length bs)
      ≡ ok options
    → NoMarker bs
    → IsTail tail
    → length bs < 65536
    → plaintext_options (record { ptr = bs ++ (tail ++ j ∷ junk); left = length bs + length tail })
      ≡ ok (options, record { ptr = tail ++ j ∷ junk; left = length tail })
unfolding plaintext_options
plaintext_options-tail [] [] j junk options e h m lt =
    let empty : options ≡ [] = sym (ok_inj (sym (packet_options_zero (j ∷ junk)) ∙ e)) in
    ground (arith, empty)
plaintext_options-tail [] (m' ∷ p) j junk options e h m lt =
    let empty : options ≡ [] =
      sym (ok_inj (sym (packet_options_zero (m' ∷ (p ++ j ∷ junk))) ∙ e)) in
    ground (arith, empty, m)
plaintext_options-tail (b ∷ bs) [] j junk options e (ne, h) m lt =
    let scan =
      skip_options-stop (b ∷ bs) 0 (suc (length bs) + 0) j junk (ne, h) (omega arith) (ground arith)
        (omega arith) in
    ground (arith, scan, ne, e)
plaintext_options-tail (b ∷ bs) (m' ∷ p) j junk options e (ne, h) m lt =
    let scan =
      skip_options-stop (b ∷ bs) 0 (suc (length bs) + suc (length p)) m' (p ++ j ∷ junk) (ne, h)
        (omega arith) (ground arith) (omega arith) in
    ground (arith, scan, ne, e, m)

count_le : (os : List CoapOption) → length os * 5 ≤ max_options_len os
unfolding max_options_len
count_le [] = omega arith
count_le (o ∷ os) = omega (arith, count_le os)

Ascending-Numbered : (os : List CoapOption) (n : ℕ) → Ascending n os → Numbered n os
Ascending-Numbered [] n h = tt
Ascending-Numbered (o ∷ os) n (e, lt, h) = (omega arith, Ascending-Numbered os o.option_number h)

payload_back :
    (p : CoapPacket) (rest : Bytes)
    → IsPacket p
    → length (payload_bytes p) < 128
    → (if length (payload_bytes p) == 0 then record { len = 0; ptr = [] } else record {
      len = sub32 (length (payload_bytes p)) 1;
      ptr = drop 1 (payload_bytes p ++ rest);
    })
      ≡ (let a : ByteArray = record {
        len = p.payload_len;
        ptr = shown p.payload_len p.payload rest;
      } in
          a)
payload_back p rest v fits =
    let len : p.payload_len ≡ length p.payload = v.payload_fits in
    elim (Bool-cases (p.payload_len == 0)) [
      | inl empty ↦ let zero_len : p.payload_len ≡ 0 = ground arith in rw (empty, zero_len)
      | inr there ↦
          let fits' : suc (length p.payload) < 128 = rw there at fits in
          let left : sub32 (suc (length p.payload)) 1 ≡ p.payload_len = omega arith in
          let nz : (suc (length p.payload) == 0) ≡ false = ground arith in rw (there, nz, left)
    ]

-- The plaintext of a packet is parsed into its code, its options and its payload; the array of
-- the plaintext has a byte `j` at least behind it.
pub oscore_decrypted_payload_parser_lem :
    (p : CoapPacket) (j : ℕ) (junk : Bytes)
    → IsProtectable p
    → oscore_decrypted_payload_parser
        (record { len = length (plaintext_of p); ptr = plaintext_of p ++ j ∷ junk })
      ≡ ok (record {
        code = p.header.code;
        e_options = pointing_all p.options (payload_bytes p ++ j ∷ junk);
        payload = record { len = p.payload_len; ptr = shown p.payload_len p.payload (j ∷ junk) };
      })
unfolding oscore_decrypted_payload_parser
oscore_decrypted_payload_parser_lem p j junk h =
    let v = h.readable.packet in
    let tail = payload_bytes p in
    let all = length-append (layout p.options) tail in
    let fits : length (plaintext_of p) < 128 = h.plaintext_fits in
    let e_fit : max_options_len p.options ≤ 30 = h.e_options_fit in
    let many = count_le p.options in
    let parsed_options =
      (oscore_packet_options_parser-layout p.options e_options_size (tail ++ j ∷ junk) v.options
        (Ascending-Numbered p.options 0 h.ascending) (omega arith) (omega arith)).1 in
    let options =
      plaintext_options-tail (layout p.options) tail j junk _ parsed_options h.readable.no_marker
        (payload_bytes-IsTail p) (omega arith) in
    let left : sub32 (length (plaintext_of p)) 1 ≡ length (layout p.options) + length tail =
      omega arith in
    let behind : (layout p.options ++ tail) ++ j ∷ junk ≡ layout p.options ++ (tail ++ j ∷ junk) =
      append_assoc (layout p.options) tail (j ∷ junk) in
    rw (left, behind, options, payload_back p (j ∷ junk) v (omega arith))
