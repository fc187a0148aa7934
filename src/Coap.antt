-- ===== src/Coap.antt =====
-- CoAP packets and their byte form: inc/oscore/oscore_coap.h and src/oscore/oscore_coap.c.
--
-- An array of options with its count is the list of its options. A pointer member points into
-- the buffer that the packet was parsed from (see Memory). `>>` and `&` with a mask on a byte
-- are written as `/` and `%`.
pub mod Decode
pub mod Encode
pub mod Fields
pub mod Layout
pub mod Packet
pub mod Pointers
pub mod Read
pub mod RoundTrip
pub mod Write
use zephyr_uoscore_uedhoc.Prelude.{ℕ, List}
use zephyr_uoscore_uedhoc.Memory.{Bytes}

-- `struct o_coap_header`
pub record CoapHeader : Type 0 where
  pub ver : ℕ
  pub type : ℕ
  pub tkl : ℕ
  pub code : ℕ
  pub mid : ℕ

-- `struct o_coap_option`
pub record CoapOption : Type 0 where
  pub delta : ℕ
  pub len : ℕ
  pub value : Bytes
  pub option_number : ℕ

-- `struct o_coap_packet`
pub record CoapPacket : Type 0 where
  pub header : CoapHeader
  pub token : Bytes
  pub options : List CoapOption
  pub payload_len : ℕ
  pub payload : Bytes

abbrev pub max_piv_len : ℕ
max_piv_len = 5

abbrev pub max_kid_context_len : ℕ
max_kid_context_len = 8

abbrev pub max_kid_len : ℕ
max_kid_len = 7

abbrev pub max_option_count : ℕ
max_option_count = 20

abbrev pub max_coap_options_len : ℕ
max_coap_options_len = 128
