-- ===== src/Coap/Layout.antt =====
-- The bytes that `options_into_byte_string` of src/oscore/oscore_coap.c writes.
use zephyr_uoscore_uedhoc.Prelude.{
  ℕ, All, List, [], append-nil, arith, length, ◌++◌, ◌+◌, ◌<◌, ◌∷◌, ◌≡◌, ◌≤◌, append_assoc,
  length-append, sub32,
}
use zephyr_uoscore_uedhoc.Coap.Packet.{max_options_len}
use zephyr_uoscore_uedhoc.Memory.{Bytes, ok}
use zephyr_uoscore_uedhoc.Coap.Encode.{
  extra_bytes, option_header, options_bytes, options_into_byte_string,
}
use zephyr_uoscore_uedhoc.Coap.{CoapOption}
use zephyr_uoscore_uedhoc.Memory.Laws.{append_s_whole, store_fits}

-- An option whose value is as long as it says, and whose delta and length are those of an
-- uint8_t.
pub record IsEncodable (o : CoapOption) : Type 0 where
  pub value_len : o.len ≡ length o.value
  pub len_lt : o.len < 256
  pub delta_lt : o.delta < 256

-- The encoding.
abbrev pub layout : List CoapOption → Bytes
layout [] = []
layout (o ∷ os) = option_header o.delta o.len ++ (o.value ++ layout os)

pub length-option_header :
    (delta len : ℕ) → length (option_header delta len) ≡ 1 + extra_bytes delta + extra_bytes len
unfolding option_header extra_bytes
length-option_header delta len = ground arith

pub extra_bytes_le : (n : ℕ) → extra_bytes n ≤ 2
unfolding extra_bytes
extra_bytes_le n = ground arith

-- An encoded option.
length-encoded :
    (o : CoapOption)
    → IsEncodable o
    → length (option_header o.delta o.len) + length o.value ≤ 5 + o.len
length-encoded o e =
    omega (arith, length-option_header o.delta o.len, extra_bytes_le o.delta, extra_bytes_le o.len)

pub length-layout_le :
    (os : List CoapOption) → All IsEncodable os → length (layout os) ≤ max_options_len os
unfolding max_options_len
length-layout_le [] h = omega arith
length-layout_le (o ∷ os) (e, h) = omega (
  arith,
  length-append (option_header o.delta o.len) (o.value ++ layout os),
  length-append o.value (layout os),
  length-encoded o e,
  length-layout_le os h,
)

pub length-layout-cons :
    (o : CoapOption) (os : List CoapOption)
    → IsEncodable o
    → length (layout (o ∷ os))
      ≡ (1 + extra_bytes o.delta + extra_bytes o.len + o.len) + length (layout os)
length-layout-cons o os e = omega (
  arith,
  length-append (option_header o.delta o.len) (o.value ++ layout os),
  length-append o.value (layout os),
  length-option_header o.delta o.len,
  e.value_len,
)

options_bytes-layout :
    (os : List CoapOption) (size capacity : ℕ) (out : Bytes)
    → All IsEncodable os
    → capacity ≤ size
    → capacity < 4294967296
    → length out + max_options_len os ≤ capacity
    → options_bytes size capacity out os ≡ ok (out ++ layout os)
unfolding options_bytes max_options_len
options_bytes-layout [] size capacity out h le lt fits = rw append-nil
options_bytes-layout (o ∷ os) size capacity out (e, h) le lt fits =
    let head = option_header o.delta o.len in
    let size_head : length (out ++ head) ≡ length out + length head = length-append out head in
    let size_all : length ((out ++ head) ++ o.value) ≡ length out + length head + length o.value =
      omega (arith, length-append (out ++ head) o.value, size_head) in
    let bound : length head + length o.value ≤ 5 + o.len = length-encoded o e in
    let len : o.len ≡ length o.value = e.value_len in
    rw (
      store_fits size out head (omega arith),
      append_s_whole size (out ++ head) (sub32 capacity (length (out ++ head))) o.value o.len len
          (omega arith) (omega arith),
      options_bytes-layout os size capacity ((out ++ head) ++ o.value) h le lt (omega arith),
      append_assoc,
      append_assoc,
    )

-- The encoder returns the encoding of the options, and neither fails nor stores outside its
-- array, where the length it is given is at least five bytes and the value for each option.
pub options_into_byte_string-layout :
    (os : List CoapOption) (size capacity : ℕ)
    → All IsEncodable os
    → capacity ≤ size
    → capacity < 4294967296
    → max_options_len os ≤ capacity
    → options_into_byte_string size os capacity ≡ ok (layout os)
unfolding options_into_byte_string
options_into_byte_string-layout os size capacity h le lt fits =
    options_bytes-layout os size capacity [] h le lt (omega arith)
