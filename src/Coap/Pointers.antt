-- ===== src/Coap/Pointers.antt =====
-- `coap2buf` and `options_into_byte_string` (src/oscore/oscore_coap.c) read of a pointer's content
-- only what its length says.
use zephyr_uoscore_uedhoc.Prelude.{
  ℕ, ◌≡◌, All, List, [], ap, arith, leb, length, refl, suc, take, zero, ◌∷◌, if◌then◌else◌, ◌++◌,
  ◌==◌, sym, take-append, ◌∙◌, false, append-nil, Bool-cases, inl, inr,
}
use zephyr_uoscore_uedhoc.Coap.Packet.{coap2buf, max_options_len, write_payload, write_token}
use zephyr_uoscore_uedhoc.Coap.{CoapOption, CoapPacket}
use zephyr_uoscore_uedhoc.Coap.RoundTrip.{pointing_all}
use zephyr_uoscore_uedhoc.Coap.Encode.{options_bytes, options_into_byte_string}
use zephyr_uoscore_uedhoc.Memory.{Bytes, append_s, read}
use zephyr_uoscore_uedhoc.Coap.Layout.{IsEncodable, layout}
use zephyr_uoscore_uedhoc.Coap.Write.{IsPacket, payload_bytes}
use zephyr_uoscore_uedhoc.Coap.Read.{parsed}

-- An option or a packet whose pointers hold what its lengths say.
abbrev pub trimmed_option : CoapOption → CoapOption
trimmed_option o = record o { value = take o.len o.value }

abbrev pub trimmed_all : List CoapOption → List CoapOption
trimmed_all [] = []
trimmed_all (o ∷ os) = trimmed_option o ∷ trimmed_all os

abbrev pub trimmed : CoapPacket → CoapPacket
trimmed p = record p {
  token = take p.header.tkl p.token;
  options = trimmed_all p.options;
  payload = take p.payload_len p.payload;
}

take_twice : (n : ℕ) (bytes : Bytes) → take n (take n bytes) ≡ take n bytes
take_twice zero bytes = refl
take_twice (suc n) [] = refl
take_twice (suc n) (b ∷ bytes) = ap (◌∷◌ b) (take_twice n bytes)

leb-length-take : (n : ℕ) (bytes : Bytes) → leb n (length (take n bytes)) ≡ leb n (length bytes)
leb-length-take zero bytes = ground arith
leb-length-take (suc n) [] = refl
leb-length-take (suc n) (b ∷ bytes) = ground (arith, leb-length-take n bytes)

read-take : (n : ℕ) (bytes : Bytes) → read n (take n bytes) ≡ read n bytes
unfolding read
read-take n bytes = rw (leb-length-take n bytes, take_twice n bytes)

append_s-take :
    (size : ℕ) (out : Bytes) (dest_len : ℕ) (bytes : Bytes) (n : ℕ)
    → append_s size out dest_len (take n bytes) n ≡ append_s size out dest_len bytes n
unfolding append_s
append_s-take size out dest_len bytes n = rw (read-take n bytes)

max_options_len-trimmed_all :
    (os : List CoapOption) → max_options_len (trimmed_all os) ≡ max_options_len os
unfolding max_options_len
max_options_len-trimmed_all [] = refl
max_options_len-trimmed_all (o ∷ os) = rw (max_options_len-trimmed_all os)

options_bytes-trimmed_all :
    (os : List CoapOption) (size capacity : ℕ) (out : Bytes)
    → options_bytes size capacity out (trimmed_all os) ≡ options_bytes size capacity out os
unfolding options_bytes
options_bytes-trimmed_all [] size capacity out = refl
options_bytes-trimmed_all (o ∷ os) size capacity out =
    simp (append_s-take, options_bytes-trimmed_all os)

options_into_byte_string-trimmed_all :
    (os : List CoapOption) (size capacity : ℕ)
    → options_into_byte_string size (trimmed_all os) capacity
      ≡ options_into_byte_string size os capacity
unfolding options_into_byte_string
options_into_byte_string-trimmed_all os size capacity =
    options_bytes-trimmed_all os size capacity []

write_token-trimmed :
    (p : CoapPacket) (size : ℕ) (out : Bytes)
    → write_token size (trimmed p) out ≡ write_token size p out
unfolding write_token
write_token-trimmed p size out = rw append_s-take

write_payload-trimmed :
    (p : CoapPacket) (size : ℕ) (out : Bytes)
    → write_payload size (trimmed p) out ≡ write_payload size p out
unfolding write_payload
write_payload-trimmed p size out = simp append_s-take

pub coap2buf-trimmed : (p : CoapPacket) (size : ℕ) → coap2buf (trimmed p) size ≡ coap2buf p size
unfolding coap2buf
coap2buf-trimmed p size = simp (
  max_options_len-trimmed_all p.options,
  options_into_byte_string-trimmed_all p.options,
  write_token-trimmed p,
  write_payload-trimmed p,
)

-- What a pointer into a buffer shows of the buffer; an empty part has none.
abbrev pub shown : ℕ → Bytes → Bytes → Bytes
shown n bytes rest = if n == 0 then [] else bytes ++ rest

pub take-shown :
    (n : ℕ) (bytes rest : Bytes) → n ≡ length bytes → take n (shown n bytes rest) ≡ bytes
take-shown n [] rest e = rw e
take-shown n (b ∷ bytes) rest e =
    let there : (suc (length bytes) == 0) ≡ false = ground arith in
    rw (e, there) (ap (◌∷◌ b) (take-append bytes rest))

pub shown_again :
    (n : ℕ) (bytes rest : Bytes) → (if n == 0 then [] else shown n bytes rest) ≡ shown n bytes rest
shown_again n bytes rest = elim (Bool-cases (n == 0)) [
  | inl empty ↦ rw empty refl
  | inr there ↦ rw there refl
]

-- Options that point into a buffer are those of the bytes there.
pub trimmed_all-pointing_all :
    (os : List CoapOption) (rest : Bytes)
    → All IsEncodable os
    → trimmed_all (pointing_all os rest) ≡ os
trimmed_all-pointing_all [] rest h = refl
trimmed_all-pointing_all (o ∷ os) rest (e, h) =
    rw
      (take-shown o.len o.value (layout os ++ rest) e.value_len, trimmed_all-pointing_all os rest h)

pub max_options_len-pointing_all :
    (os : List CoapOption) (rest : Bytes)
    → max_options_len (pointing_all os rest) ≡ max_options_len os
unfolding max_options_len
max_options_len-pointing_all [] rest = refl
max_options_len-pointing_all (o ∷ os) rest = rw (max_options_len-pointing_all os rest)

pub options_into_byte_string-pointing_all :
    (os : List CoapOption) (rest : Bytes) (size capacity : ℕ)
    → All IsEncodable os
    → options_into_byte_string size (pointing_all os rest) capacity
      ≡ options_into_byte_string size os capacity
options_into_byte_string-pointing_all os rest size capacity h =
    sym (options_into_byte_string-trimmed_all (pointing_all os rest) size capacity)
    ∙ ap (λ qs. options_into_byte_string size qs capacity) (trimmed_all-pointing_all os rest h)

-- A packet whose pointers show its parts, whatever stands behind them.
abbrev pub spread : CoapPacket → Bytes → Bytes → Bytes → CoapPacket
spread p behind_token behind_options behind_payload = record {
  header = p.header;
  token = shown p.header.tkl p.token behind_token;
  options = pointing_all p.options behind_options;
  payload_len = p.payload_len;
  payload = shown p.payload_len p.payload behind_payload;
}

-- It is written as if the pointers held no more than their parts.
pub coap2buf-spread :
    (p : CoapPacket) (behind_token behind_options behind_payload : Bytes) (size : ℕ)
    → IsPacket p
    → coap2buf (spread p behind_token behind_options behind_payload) size ≡ coap2buf p size
coap2buf-spread p behind_token behind_options behind_payload size v =
    let q = spread p behind_token behind_options behind_payload in
    let same : trimmed q ≡ p = rw (
      take-shown p.header.tkl p.token behind_token v.token_len,
      trimmed_all-pointing_all p.options behind_options v.options,
      take-shown p.payload_len p.payload behind_payload v.payload_fits,
    ) in
    sym (coap2buf-trimmed q size) ∙ ap (λ r. coap2buf r size) same

pub parsed-spread :
    (p : CoapPacket)
    → parsed p ≡ spread p (layout p.options ++ payload_bytes p) (payload_bytes p) []
parsed-spread p = rw append-nil
