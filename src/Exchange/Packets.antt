-- ===== src/Exchange/Packets.antt =====
-- The OSCORE packet between the two endpoints (`oscore_pkg_generate` of
-- src/oscore/coap2oscore.c and `o_coap_pkg_generate` of src/oscore/oscore2coap.c).
use zephyr_uoscore_uedhoc.Prelude.{
  ℕ, ◌≡◌, [], arith, if◌then◌else◌, length, refl, ◌+◌, ◌<◌, ◌∷◌, ap, append-nil, sym, take_all,
  ◌==◌, ◌∙◌, ◌++◌, ◌≤◌, take-append,
}
use zephyr_uoscore_uedhoc.Coap.Packet.{coap2buf, max_options_len}
use zephyr_uoscore_uedhoc.Protect.{code_req_post, code_resp_changed, is_request_code}
use zephyr_uoscore_uedhoc.Coap.Write.{IsPacket, coap2buf-packet_bytes, packet_bytes, payload_bytes}
use zephyr_uoscore_uedhoc.Coap.Read.{IsReadable, NoMarker}
use zephyr_uoscore_uedhoc.Coap.{CoapPacket, CoapOption, max_option_count}
use zephyr_uoscore_uedhoc.Memory.{Bytes, ok}
use zephyr_uoscore_uedhoc.Options.{coap_option_oscore}
use zephyr_uoscore_uedhoc.Coap.Encode.{option_header}
use zephyr_uoscore_uedhoc.Coap.Pointers.{
  spread, coap2buf-trimmed, shown, shown_again, take-shown, trimmed, coap2buf-spread,
}
use zephyr_uoscore_uedhoc.Protect.Parts.{oscore_pkg_generate}
use zephyr_uoscore_uedhoc.Coap.Fields.{option_header_small}
use zephyr_uoscore_uedhoc.Coap.RoundTrip.{pointing_all}
use zephyr_uoscore_uedhoc.Exchange.Merged.{
  Ascending-pointing_all, length-pointing_all, options_from_oscore_reorder_lem,
  pointing_all-ne_oscore,
}
use zephyr_uoscore_uedhoc.Exchange.Opened.{oscore_decrypted_payload_parser_lem}
use zephyr_uoscore_uedhoc.Exchange.{IsProtectable, plaintext_of}
use zephyr_uoscore_uedhoc.Unprotect.Steps.{o_coap_pkg_generate}

-- The packet that carries the ciphertext `c` and an OSCORE option of value `value`.
abbrev pub outer : CoapPacket → ℕ → Bytes → Bytes → CoapPacket
outer p code value c = record {
  header = record (p.header) { code = code };
  token = p.token;
  options = record { delta = 9; len = length value; value = value; option_number = 9 } ∷ [];
  payload_len = length c;
  payload = c;
}

pub outer-IsReadable :
    (p : CoapPacket) (code : ℕ) (value c : Bytes)
    → IsPacket p
    → length value < 13
    → NoMarker value
    → IsReadable (outer p code value c)
unfolding max_options_len
outer-IsReadable p code value c v lt n =
    let first : option_header 9 (length value) ≡ (144 + length value) ∷ [] =
      option_header_small 9 (length value) (omega arith) lt in
    record {
      packet = record {
        ver_lt = v.ver_lt;
        type_lt = v.type_lt;
        tkl_le = v.tkl_le;
        mid_lt = v.mid_lt;
        token_len = v.token_len;
        options = (record { value_len = refl; len_lt = omega arith; delta_lt = omega arith }, tt);
        options_fit = omega arith;
        payload_fits = refl;
      };
      short = ((record { value_len = refl; len_lt = omega arith; delta_lt = omega arith }, lt), tt);
      numbered = (refl, tt);
      options_count = omega arith;
      no_marker = rw (first, append-nil) (omega arith, n);
      not_empty = rw first (omega arith);
    }

-- The sender's packet is written as the outer packet.
pub oscore_pkg_generate_lem :
    (p : CoapPacket) (a b d value junk c : Bytes) (code size : ℕ)
    → IsPacket p
    → (if is_request_code p.header.code then code_req_post else code_resp_changed) ≡ code
    → (q : CoapPacket) × (oscore_pkg_generate
          (spread p a b d)
          []
          c
          (record { option_number = coap_option_oscore; len = length value; value = value ++ junk })
        ≡ ok q)
      × (coap2buf q size ≡ coap2buf (outer p code value c) size)
unfolding oscore_pkg_generate
oscore_pkg_generate_lem p a b d value junk c code size v e =
    let q : CoapPacket = record {
      header = record (p.header) { code = code };
      token = if p.header.tkl == 0 then [] else shown p.header.tkl p.token a;
      options =
          record { delta = 9; len = length value; value = value ++ junk; option_number = 9 } ∷ [];
      payload_len = length c;
      payload = c;
    } in
    let same : trimmed q ≡ outer p code value c = rw (
      shown_again p.header.tkl p.token a,
      take-shown p.header.tkl p.token a v.token_len,
      take-append value junk,
      take_all (length c) c (omega arith),
    ) in
    (q, rw e, sym (coap2buf-trimmed q size) ∙ ap (λ r. coap2buf r size) same)

-- The recipient's packet is the sender's, with pointers into the plaintext.
pub o_coap_pkg_generate_lem :
    (p : CoapPacket) (code : ℕ) (value c a b d : Bytes) (j : ℕ) (junk : Bytes)
    → IsProtectable p
    → o_coap_pkg_generate
        (record { len = length (plaintext_of p); ptr = plaintext_of p ++ j ∷ junk })
        (spread (outer p code value c) a b d)
      ≡ ok (spread p a (payload_bytes p ++ j ∷ junk) (j ∷ junk))
unfolding o_coap_pkg_generate
o_coap_pkg_generate_lem p code value c a b d j junk h =
    let rest = payload_bytes p ++ j ∷ junk in
    let u : CoapOption = record {
      delta = 9;
      len = length value;
      value = shown (length value) value b;
      option_number = 9;
    } in
    let count : length (pointing_all p.options rest) ≤ max_option_count =
      let n = h.readable.options_count in omega (arith, length-pointing_all p.options rest) in
    rw (
      oscore_decrypted_payload_parser_lem p j junk h,
      options_from_oscore_reorder_lem u (pointing_all p.options rest) refl
          (Ascending-pointing_all p.options 0 rest h.ascending)
          (pointing_all-ne_oscore p.options rest h.counted) count,
      shown_again p.header.tkl p.token a,
      shown_again p.payload_len p.payload (j ∷ junk),
    )

-- The recipient writes the bytes of the sender's packet.
pub coap2buf-o_coap_pkg_generate :
    (p : CoapPacket) (a b d : Bytes) (size : ℕ)
    → IsPacket p
    → length (packet_bytes p) ≤ size
    → size < 4294967296
    → coap2buf (spread p a b d) size
      ≡ ok (record { bytes = packet_bytes p; len = length (packet_bytes p) })
coap2buf-o_coap_pkg_generate p a b d size v fits lt =
    coap2buf-spread p a b d size v ∙ coap2buf-packet_bytes p size v fits lt
