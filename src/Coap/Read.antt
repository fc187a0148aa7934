-- ===== src/Coap/Read.antt =====
-- `buf2coap` of src/oscore/oscore_coap.c on the bytes of a packet.
use zephyr_uoscore_uedhoc.Prelude.{
  ℕ, All, [], arith, length, sub32, suc, u16, ◌++◌, ◌+◌, ◌-◌, ◌<◌, ◌∷◌, ◌≡◌, ◌≢◌, if◌then◌else◌,
  ◌==◌, bit_or_header, length-append, ◌≤◌, List, refl, Bool-cases, inl, inr, false, le→ltb, ltb,
}
use zephyr_uoscore_uedhoc.Coap.Packet.{
  scan_options, header_bytes, read_header, max_options_len, read_options, parse_options, buf2coap,
  read_payload, read_token,
}
use zephyr_uoscore_uedhoc.Memory.{Bytes, ok, of_bytes}
use zephyr_uoscore_uedhoc.Coap.{CoapPacket, max_option_count, CoapOption}
use zephyr_uoscore_uedhoc.Coap.Write.{IsPacket, payload_bytes, packet_bytes, length-packet_bytes}
use zephyr_uoscore_uedhoc.Coap.Layout.{layout, length-layout_le}
use zephyr_uoscore_uedhoc.Coap.RoundTrip.{
  pointing_all, Inverts, Numbered, Reads, options_loop-layout,
}
use zephyr_uoscore_uedhoc.Coap.Encode.{extra_bytes, field_bytes, field_nibble}
use zephyr_uoscore_uedhoc.Coap.Decode.{buf2options, buf2options_extension, read_field, options_loop}
use zephyr_uoscore_uedhoc.Memory.Laws.{drop_prefix}

-- No byte is the payload marker.
abbrev pub NoMarker : Bytes → Type 0
NoMarker bytes = All (λ b. b ≢ 0xFF) bytes

scan_options-marker :
    (bs : Bytes) (n left : ℕ) (p : Bytes)
    → NoMarker bs
    → length bs < left
    → left < 4294967296
    → n + length bs < 65536
    → scan_options n left (bs ++ 0xFF ∷ p)
      ≡ ok (record {
        options_len = n + length bs;
        stop = record { ptr = 0xFF ∷ p; left = left - length bs };
      })
unfolding scan_options
scan_options-marker [] n left p h lt small fits = ground arith
scan_options-marker (b ∷ bs) n left p (ne, h) lt small fits =
    ground (arith, scan_options-marker bs (u16 (n + 1)) (sub32 left 1) p h)

scan_options-end :
    (bs : Bytes) (b n : ℕ) (p : Bytes)
    → NoMarker (b ∷ bs)
    → n + suc (length bs) < 65536
    → scan_options n (suc (length bs)) (b ∷ (bs ++ p))
      ≡ ok (record { options_len = n + suc (length bs); stop = record { ptr = p; left = 0 } })
unfolding scan_options
scan_options-end [] b n p h fits = ground arith
scan_options-end (c ∷ bs) b n p (ne, h) fits =
    ground (arith, scan_options-end bs c (u16 (n + 1)) p h)

-- The header as it is written.
pub read_header-header_bytes :
    (p : CoapPacket) (rest : Bytes)
    → IsPacket p
    → read_header (header_bytes p.header ++ rest) ≡ ok p.header
unfolding read_header header_bytes
read_header-header_bytes p rest v = ground (
  arith,
  bit_or_header p.header.ver p.header.type p.header.tkl v.ver_lt v.type_lt,
  v.tkl_le,
  v.mid_lt,
)

-- The packet as `buf2coap` returns it: the pointers point into its buffer.
abbrev pub parsed : CoapPacket → CoapPacket
parsed p = record {
  header = p.header;
  token = if p.header.tkl == 0 then [] else p.token ++ (layout p.options ++ payload_bytes p);
  options = pointing_all p.options (payload_bytes p);
  payload_len = p.payload_len;
  payload = if p.payload_len == 0 then [] else p.payload;
}

-- What of a packet survives the way to bytes and back: the values of the options are shorter
-- than 13 bytes, no option byte is the marker, and something follows the token.
pub record IsReadable (p : CoapPacket) : Type 0 where
  pub packet : IsPacket p
  pub short : All (Reads 13) p.options
  pub numbered : Numbered 0 p.options
  pub options_count : length p.options ≤ max_option_count
  pub no_marker : NoMarker (layout p.options)
  pub not_empty : 0 < length (layout p.options) + p.payload_len

buf2options-Inverts : Inverts buf2options_extension 13
unfolding read_field field_nibble field_bytes extra_bytes
buf2options-Inverts = record {
  delta_back = λ reserved n p h. ground arith;
  len_back = λ reserved n p h. ground arith;
}

buf2options-layout :
    (p : CoapPacket)
    → IsReadable p
    → buf2options max_option_count (layout p.options ++ payload_bytes p) (length (layout p.options))
      ≡ ok (pointing_all p.options (payload_bytes p))
unfolding buf2options
buf2options-layout p r =
    let fit : max_options_len p.options ≤ 128 = r.packet.options_fit in
    let count : 0 + length p.options ≤ 20 = let c = r.options_count in omega arith in
    options_loop-layout buf2options_extension 13 buf2options-Inverts p.options max_option_count _ 0
      _ 0 0 (payload_bytes p) r.short r.numbered (omega arith)
      (omega (arith, length-layout_le p.options r.packet.options))
      (omega (arith, length-append (layout p.options) (payload_bytes p))) count

buf2options_zero : (p : Bytes) → buf2options max_option_count p 0 ≡ ok []
unfolding buf2options options_loop
buf2options_zero p = refl

-- What stands behind the options: nothing, or the marker and the payload.
abbrev pub IsTail : Bytes → Type 0
IsTail [] = Unit
IsTail (m ∷ p) = m ≡ 0xFF

read_options-tail :
    (bs tail : Bytes) (q : CoapPacket) (options : List CoapOption)
    → buf2options max_option_count (bs ++ tail) (length bs) ≡ ok options
    → NoMarker bs
    → IsTail tail
    → 0 < length bs + length tail
    → length bs < 65536
    → length bs + length tail < 4294967296
    → read_options q (record { ptr = bs ++ tail; left = length bs + length tail })
      ≡ ok (record q { options = options }, record { ptr = tail; left = length tail })
unfolding read_options parse_options
read_options-tail [] [] q options e h m pos small lt = absurd (omega arith)
read_options-tail [] (m' ∷ p) q options e h m pos small lt =
    ground (arith, buf2options_zero (m' ∷ p))
read_options-tail (b ∷ bs) [] q options e h m pos small lt =
    let left : suc (length bs) + 0 ≡ suc (length bs) = omega arith in
    let scan = scan_options-end bs b 0 [] h (omega arith) in rw left (ground (arith, scan, h.0))
read_options-tail (b ∷ bs) (m' ∷ p) q options e h m pos small lt =
    let scan =
      scan_options-marker (b ∷ bs) 0 (suc (length bs) + suc (length p)) p h (omega arith)
        (omega arith) (omega arith) in
    rw m (ground (arith, scan, h.0))

read_token-token :
    (p out : CoapPacket) (rest : Bytes)
    → IsPacket p
    → 0 < length rest
    → length p.token + length rest < 4294967296
    → read_token
        (record out { header = p.header })
        (record { ptr = p.token ++ rest; left = length p.token + length rest })
      ≡ ok (
        record out { header = p.header; token = if p.header.tkl == 0 then [] else p.token ++ rest },
        record { ptr = rest; left = length rest },
      )
unfolding read_token
read_token-token p out rest v pos lt =
    ground (arith, v.token_len, v.tkl_le, drop_prefix p.header.tkl p.token rest v.token_len)

pub tail_len :
    (p : CoapPacket)
    → IsPacket p
    → length (payload_bytes p) ≡ (if p.payload_len == 0 then 0 else suc p.payload_len)
tail_len p v = let e : p.payload_len ≡ length p.payload = v.payload_fits in ground arith

pub payload_bytes-IsTail : (p : CoapPacket) → IsTail (payload_bytes p)
payload_bytes-IsTail p = elim (Bool-cases (p.payload_len == 0)) [
  | inl e ↦ rw e tt
  | inr e ↦ rw e refl
]

read_payload-parsed :
    (p out : CoapPacket)
    → IsPacket p
    → length (payload_bytes p) < 4294967296
    → read_payload out (record { ptr = payload_bytes p; left = length (payload_bytes p) })
      ≡ record out {
        payload_len = p.payload_len;
        payload = if p.payload_len == 0 then [] else p.payload;
      }
unfolding read_payload
read_payload-parsed p out v lt =
    let e : p.payload_len ≡ length p.payload = v.payload_fits in
    elim (Bool-cases (p.payload_len == 0)) [
      | inl empty ↦ let zero_len : p.payload_len ≡ 0 = ground arith in rw (empty, zero_len)
      | inr there ↦
          let lt' : suc (length p.payload) < 4294967296 = rw there at lt in
          let left : sub32 (suc (length p.payload)) 1 ≡ p.payload_len = omega arith in
          let nz : (suc (length p.payload) == 0) ≡ false = ground arith in rw (there, nz, left)
    ]

-- Whatever the caller's packet held before, `buf2coap` returns the packet that was written,
-- with pointers into the buffer, for packets that IsReadable describes.
pub buf2coap-packet_bytes :
    (p out : CoapPacket)
    → IsReadable p
    → length (packet_bytes p) < 4294967296
    → buf2coap (of_bytes (packet_bytes p)) out ≡ ok (parsed p)
unfolding buf2coap header_bytes
buf2coap-packet_bytes p out r lt =
    let v = r.packet in
    let tail = payload_bytes p in
    let behind = layout p.options ++ tail in
    let all = length-packet_bytes p in
    let options_len : length behind ≡ length (layout p.options) + length tail =
      length-append (layout p.options) tail in
    let fit : max_options_len p.options ≤ 128 = v.options_fit in
    let tail_pos = tail_len p v in
    let pos : 0 < length behind = ground (arith, r.not_empty) in
    let start : sub32 (length (packet_bytes p)) 4 ≡ length p.token + length behind = omega arith in
    let long : ltb (length (packet_bytes p)) 4 ≡ false = le→ltb _ 4 (omega arith) in
    rw (
      long,
      start,
      read_header-header_bytes p (p.token ++ behind) v,
      read_token-token p out behind v pos (omega arith),
      options_len,
      read_options-tail (layout p.options) tail _ (pointing_all p.options tail)
          (buf2options-layout p r) r.no_marker (payload_bytes-IsTail p) (omega arith)
          (omega (arith, length-layout_le p.options v.options)) (omega arith),
      read_payload-parsed p _ v (omega arith),
    )
