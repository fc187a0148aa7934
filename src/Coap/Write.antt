-- ===== src/Coap/Write.antt =====
-- The bytes that `coap2buf` of src/oscore/oscore_coap.c writes.
use zephyr_uoscore_uedhoc.Prelude.{
  ℕ, All, Bool-cases, [], append-nil, arith, if◌then◌else◌, inl, inr, length, ltb, refl, sub32,
  ◌++◌, ◌+◌, ◌<◌, ◌==◌, ◌∷◌, ◌≡◌, ◌≤◌, append_assoc, false, length-append, le→ltb, suc, u32,
}
use zephyr_uoscore_uedhoc.Coap.Packet.{
  header_bytes, max_options_len, write_payload, write_token, coap2buf,
}
use zephyr_uoscore_uedhoc.Coap.{CoapHeader, CoapPacket, max_coap_options_len}
use zephyr_uoscore_uedhoc.Memory.Laws.{append_s_whole, nil_of_length, store_fits}
use zephyr_uoscore_uedhoc.Coap.Layout.{IsEncodable, layout, options_into_byte_string-layout}
use zephyr_uoscore_uedhoc.Memory.{Bytes, ok}

-- A packet whose members fit the header, and whose pointers hold what the lengths say.
pub record IsPacket (p : CoapPacket) : Type 0 where
  pub ver_lt : p.header.ver < 4
  pub type_lt : p.header.type < 4
  pub tkl_le : p.header.tkl ≤ 8
  pub mid_lt : p.header.mid < 65536
  pub token_len : p.header.tkl ≡ length p.token
  pub options : All IsEncodable p.options
  pub options_fit : max_options_len p.options ≤ max_coap_options_len
  pub payload_fits : p.payload_len ≡ length p.payload

-- The payload behind its marker.
abbrev pub payload_bytes : CoapPacket → Bytes
payload_bytes p = if p.payload_len == 0 then [] else 0xFF ∷ p.payload

abbrev pub packet_bytes : CoapPacket → Bytes
packet_bytes p = header_bytes p.header ++ (p.token ++ (layout p.options ++ payload_bytes p))

pub length-header_bytes : (h : CoapHeader) → length (header_bytes h) ≡ 4
unfolding header_bytes
length-header_bytes h = refl

write_token-token :
    (p : CoapPacket) (size : ℕ) (out : Bytes)
    → IsPacket p
    → size < 4294967296
    → length out + length p.token ≤ size
    → write_token size p out ≡ ok (out ++ p.token)
unfolding write_token
write_token-token p size out v lt fits =
    let tkl : p.header.tkl ≡ length p.token = v.token_len in
    elim (Bool-cases (ltb 0 p.header.tkl)) [
      | inl some_token ↦ rw (
        some_token,
        append_s_whole size out (sub32 size (length out)) p.token p.header.tkl tkl (omega arith)
            (omega arith),
      )
      | inr no_token ↦
          let none : length p.token ≡ 0 = ground arith in
          rw (no_token, nil_of_length p.token none, append-nil)
    ]

write_payload-payload :
    (p : CoapPacket) (size : ℕ) (out : Bytes)
    → IsPacket p
    → size < 4294967296
    → length out + length (payload_bytes p) ≤ size
    → write_payload size p out ≡ ok (out ++ payload_bytes p)
unfolding write_payload
write_payload-payload p size out v lt fits =
    let len : p.payload_len ≡ length p.payload = v.payload_fits in
    elim (Bool-cases (p.payload_len == 0)) [
      | inl empty ↦ rw empty (rw append-nil)
      | inr full ↦
          let fits' : length out + suc (length p.payload) ≤ size = ground arith in
          let marked : length (out ++ 0xFF ∷ []) ≡ length out + 1 = length-append out (0xFF ∷ []) in
          rw (
            full,
            store_fits size out (0xFF ∷ []) (omega arith),
            append_s_whole size (out ++ 0xFF ∷ []) (sub32 size (length (out ++ 0xFF ∷ [])))
                p.payload p.payload_len len (omega arith) (omega arith),
            append_assoc,
          )
    ]

pub length-packet_bytes :
    (p : CoapPacket)
    → length (packet_bytes p)
      ≡ 4 + length p.token + length (layout p.options) + length (payload_bytes p)
length-packet_bytes p = omega (
  arith,
  length-append (header_bytes p.header) (p.token ++ (layout p.options ++ payload_bytes p)),
  length-append p.token (layout p.options ++ payload_bytes p),
  length-append (layout p.options) (payload_bytes p),
  length-header_bytes p.header,
)

output_len :
    (p : CoapPacket)
    → IsPacket p
    → (if p.payload_len == 0
        then 4 + p.header.tkl + length (layout p.options)
        else 4 + p.header.tkl + length (layout p.options) + 1 + p.payload_len)
      ≡ length (packet_bytes p)
output_len p v =
    let tkl : p.header.tkl ≡ length p.token = v.token_len in
    let len : p.payload_len ≡ length p.payload = v.payload_fits in
    ground (arith, length-packet_bytes p)

-- A packet whose lengths are those of its parts, and whose options are short enough, is written
-- whole into every buffer that has room for it, and the length returned is that of the bytes:
-- header, token, options, and the payload behind its marker.
pub coap2buf-packet_bytes :
    (p : CoapPacket) (size : ℕ)
    → IsPacket p
    → length (packet_bytes p) ≤ size
    → size < 4294967296
    → coap2buf p size ≡ ok (record { bytes = packet_bytes p; len = length (packet_bytes p) })
unfolding coap2buf
coap2buf-packet_bytes p size v fits lt =
    let all = length-packet_bytes p in
    let head = header_bytes p.header in
    let four : length head ≡ 4 = length-header_bytes p.header in
    let options_fit : max_options_len p.options ≤ 128 = v.options_fit in
    let no_wrap : u32 (max_options_len p.options) ≡ max_options_len p.options = omega arith in
    let small : ltb 128 (max_options_len p.options) ≡ false = le→ltb 128 _ options_fit in
    let tokened : length (head ++ p.token) ≡ 4 + length p.token =
      omega (arith, length-append head p.token) in
    let optioned : length ((head ++ p.token) ++ layout p.options)
        ≡ 4 + length p.token + length (layout p.options) =
      omega (arith, length-append (head ++ p.token) (layout p.options)) in
    let total : u32 (length (packet_bytes p)) ≡ length (packet_bytes p) = omega arith in
    rw (
      store_fits size [] head (omega arith),
      write_token-token p size head v lt (omega arith),
      no_wrap,
      small,
      options_into_byte_string-layout p.options 128 (max_options_len p.options) v.options
          options_fit (omega arith) (omega arith),
      append_s_whole size (head ++ p.token) (sub32 size (length (head ++ p.token)))
          (layout p.options) (length (layout p.options)) refl (omega arith) (omega arith),
      write_payload-payload p size ((head ++ p.token) ++ layout p.options) v lt (omega arith),
      output_len p v,
      total,
      append_assoc p.token (layout p.options) (payload_bytes p),
    )
