-- ===== src/Exchange/Plaintext.antt =====
-- The plaintext that `coap2oscore` (src/oscore/coap2oscore.c) makes of a packet it has parsed.
use zephyr_uoscore_uedhoc.Coap.RoundTrip.{Reads}
use zephyr_uoscore_uedhoc.Prelude.{
  ◌≡◌, [], arith, sub16, u8, ◌++◌, ◌+◌, ◌<◌, ◌∷◌, All, List, append-nil, append_assoc, length, refl,
  u16, ℕ, ◌≢◌, ◌≤◌, ap, ◌∙◌, Bool-cases, inl, inr, length-append, suc, ◌==◌, sub32,
}
use zephyr_uoscore_uedhoc.Protect.Extract.{
  Split, counted_extra, extract_option, e_u_options_extract, extract_from, no_options,
}
use zephyr_uoscore_uedhoc.Exchange.{IsCounted, Ascending, IsProtectable, plaintext_of}
use zephyr_uoscore_uedhoc.Coap.Encode.{extra_bytes}
use zephyr_uoscore_uedhoc.Coap.{CoapOption, CoapPacket}
use zephyr_uoscore_uedhoc.Coap.RoundTrip.{pointing, pointing_all}
use zephyr_uoscore_uedhoc.Coap.Layout.{
  layout, length-layout-cons, length-layout_le, options_into_byte_string-layout,
}
use zephyr_uoscore_uedhoc.Memory.{Bytes, ok}
use zephyr_uoscore_uedhoc.Coap.Packet.{max_options_len}
use zephyr_uoscore_uedhoc.Coap.Pointers.{
  max_options_len-pointing_all, options_into_byte_string-pointing_all, spread,
}
use zephyr_uoscore_uedhoc.Coap.Write.{IsPacket, payload_bytes}
use zephyr_uoscore_uedhoc.Memory.Laws.{append_s_fits, append_s_whole, check_fits, store_fits}
use zephyr_uoscore_uedhoc.Protect.{max_e_options, max_plaintext_len}
use zephyr_uoscore_uedhoc.Protect.Parts.{plaintext_payload, plaintext_setup}
use zephyr_uoscore_uedhoc.Protect.Steps.{make_plaintext, plaintext_length}

counted_extra-eq : (n : ℕ) → n ≢ 13 → n < 243 → counted_extra n ≡ extra_bytes n
unfolding counted_extra extra_bytes
counted_extra-eq n h k = ground arith

extract_option-e :
    (o : CoapOption) (s : Split)
    → IsCounted o
    → o.option_number ≡ s.temp_option_nr + o.delta
    → o.option_number < 256
    → s.e_delta_sum ≡ s.temp_option_nr
    → o.len < 13
    → s.e_options_len + (1 + extra_bytes o.delta + extra_bytes o.len + o.len) < 65536
    → extract_option o s ≡ record s {
      e_options = s.e_options ++ o ∷ [];
      e_options_len = s.e_options_len + (1 + extra_bytes o.delta + extra_bytes o.len + o.len);
      temp_option_nr = o.option_number;
      e_delta_sum = o.option_number;
    }
unfolding extract_option
extract_option-e o s c e lt sum short fits =
    let number : u8 (s.temp_option_nr + o.delta) ≡ o.option_number = omega arith in
    let delta : sub16 o.option_number s.e_delta_sum ≡ o.delta = omega arith in
    let next : u8 (s.e_delta_sum + o.delta) ≡ o.option_number = omega arith in
    let d = counted_extra-eq o.delta c.not_13 c.small in
    let l = counted_extra-eq o.len (omega arith) (omega arith) in
    let size : u16 (s.e_options_len + 1 + extra_bytes o.delta + extra_bytes o.len + o.len)
        ≡ s.e_options_len + (1 + extra_bytes o.delta + extra_bytes o.len + o.len) =
      omega arith in
    rw (number, c.class_e, delta, next, d, l, size)

-- All options go to the first array, as they are.
extract_from-e :
    (os : List CoapOption) (s : Split) (rest : Bytes)
    → All IsCounted os
    → Ascending s.temp_option_nr os
    → All (Reads 13) os
    → s.e_delta_sum ≡ s.temp_option_nr
    → s.e_options_len + length (layout os) < 65536
    → (last : ℕ) × (extract_from (pointing_all os rest) s ≡ record s {
      e_options = s.e_options ++ pointing_all os rest;
      e_options_len = s.e_options_len + length (layout os);
      temp_option_nr = last;
      e_delta_sum = last;
    })
unfolding extract_from
extract_from-e [] s rest c a r sum fits = (s.temp_option_nr, ground (arith, append-nil s.e_options))
extract_from-e (o ∷ os) s rest (c, cs) (e, lt, a) (r, rs) sum fits =
    let q = pointing o (layout os ++ rest) in
    let c' : IsCounted q = record { class_e = c.class_e; not_13 = c.not_13; small = c.small } in
    let size : length (layout (o ∷ os))
        ≡ (1 + extra_bytes o.delta + extra_bytes o.len + o.len) + length (layout os) =
      length-layout-cons o os r.0 in
    let step = extract_option-e q s c' e lt sum r.1 (omega arith) in
    let next : Split = record s {
      e_options = s.e_options ++ q ∷ [];
      e_options_len = s.e_options_len + (1 + extra_bytes o.delta + extra_bytes o.len + o.len);
      temp_option_nr = o.option_number;
      e_delta_sum = o.option_number;
    } in
    let (last, ih) = extract_from-e os next rest cs a rs refl (omega arith) in
    let total : s.e_options_len
          + (1 + extra_bytes o.delta + extra_bytes o.len + o.len)
          + length (layout os)
        ≡ s.e_options_len + length (layout (o ∷ os)) =
      omega arith in
    (last, ap (λ t. extract_from (pointing_all os rest) t) step ∙ ih ∙ rw (append_assoc, total))

pub e_u_options_extract-e :
    (p : CoapPacket) (rest : Bytes)
    → IsProtectable p
    → (s : Split) × (e_u_options_extract (pointing_all p.options rest) ≡ s)
      × (s.e_options ≡ pointing_all p.options rest)
      × (s.e_options_len ≡ length (layout p.options))
      × (s.u_options ≡ [])
unfolding e_u_options_extract
e_u_options_extract-e p rest h =
    let fits = length-layout_le p.options h.readable.packet.options in
    let small : max_options_len p.options ≤ 30 = h.e_options_fit in
    let (last, e) =
      extract_from-e p.options no_options rest h.counted h.ascending h.readable.short refl
        (omega arith) in
    (_, e, refl, omega arith, refl)

plaintext_length_lem :
    (p : CoapPacket) (a b c : Bytes)
    → IsProtectable p
    → plaintext_length (spread p a b c) (length (layout p.options)) ≡ length (plaintext_of p)
unfolding plaintext_length
plaintext_length_lem p a b c h =
    let v : p.payload_len ≡ length p.payload = h.readable.packet.payload_fits in
    let fits : length (plaintext_of p) < 128 = h.plaintext_fits in
    let all = length-append (layout p.options) (payload_bytes p) in ground arith

plaintext_payload_lem :
    (p : CoapPacket) (a b c out : Bytes)
    → IsPacket p
    → length out + length (payload_bytes p) < 128
    → plaintext_payload (spread p a b c) (length out + length (payload_bytes p)) out
      ≡ ok (out ++ payload_bytes p)
unfolding plaintext_payload
plaintext_payload_lem p a b c out v fits =
    let len : p.payload_len ≡ length p.payload = v.payload_fits in
    elim (Bool-cases (p.payload_len == 0)) [
      | inl empty ↦ rw empty (rw append-nil)
      | inr full ↦
          let fits' : length out + suc (length p.payload) < 128 = rw full at fits in
          let marked : length (out ++ 0xFF ∷ []) ≡ length out + 1 = length-append out (0xFF ∷ []) in
          rw (
            full,
            store_fits max_plaintext_len out (0xFF ∷ []) (omega arith),
            len,
            append_s_fits max_plaintext_len (out ++ 0xFF ∷ [])
                (sub32 (length out + suc (length p.payload)) (length (out ++ 0xFF ∷ []))) p.payload
                c (omega arith) (omega arith),
            append_assoc,
          )
    ]

-- The plaintext is the code, the options and the payload behind its marker, and the length that
-- is computed for it is its own.
pub make_plaintext_lem :
    (p : CoapPacket) (a b c : Bytes) (s : Split)
    → IsProtectable p
    → s.e_options ≡ pointing_all p.options b
    → s.e_options_len ≡ length (layout p.options)
    → (make_plaintext (spread p a b c) s ≡ ok (plaintext_of p))
      × (plaintext_length (spread p a b c) s.e_options_len ≡ length (plaintext_of p))
unfolding make_plaintext plaintext_setup
make_plaintext_lem p a b c s h es len =
    let v = h.readable.packet in
    let count = plaintext_length_lem p a b c h in
    let fits : length (plaintext_of p) < 128 = h.plaintext_fits in
    let all = length-append (layout p.options) (payload_bytes p) in
    let e_fit : max_options_len p.options ≤ 30 = h.e_options_fit in
    let no_wrap : u16 (max_options_len p.options) ≡ max_options_len p.options = omega arith in
    let code : Bytes = p.header.code ∷ [] in
    let total : length (plaintext_of p)
        ≡ length (code ++ layout p.options) + length (payload_bytes p) =
      omega arith in
    (
      rw (
        len,
        count,
        es,
        check_fits max_plaintext_len (length (plaintext_of p)) (omega arith),
        max_options_len-pointing_all p.options b,
        no_wrap,
        check_fits max_e_options (max_options_len p.options) e_fit,
        options_into_byte_string-pointing_all p.options b max_e_options (max_options_len p.options)
            v.options,
        options_into_byte_string-layout p.options max_e_options (max_options_len p.options)
            v.options e_fit (omega arith) (omega arith),
        append_s_whole max_plaintext_len code (sub32 (length (plaintext_of p)) 1) (layout p.options)
            (length (layout p.options)) refl (omega arith) (omega arith),
        total,
        plaintext_payload_lem p a b c (code ++ layout p.options) v (omega arith),
      ),
      rw len count,
    )
