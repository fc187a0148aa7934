-- ===== src/Tests.antt =====
-- The theorems on CoAP packets at concrete inputs; the children hold those of the other parts.
mod Endpoints
mod Exchanged
mod KeyStores
mod Nonces
mod Parts
mod Window
mod Peers
mod Handshake
mod Agreements
mod Ciphertexts
mod Messages
mod Overflow
use zephyr_uoscore_uedhoc.Coap.RoundTrip.{oscore_packet_options_parser-layout, pointing_all}
use zephyr_uoscore_uedhoc.Coap.Read.{IsReadable, buf2coap-packet_bytes, parsed}
use zephyr_uoscore_uedhoc.Prelude.{List, [], arith, length, refl, ◌++◌, ◌∷◌, ◌≡◌}
use zephyr_uoscore_uedhoc.Coap.Packet.{buf2coap, coap2buf, header_bytes, max_options_len}
use zephyr_uoscore_uedhoc.Coap.Layout.{IsEncodable, layout, options_into_byte_string-layout}
use zephyr_uoscore_uedhoc.Coap.{CoapOption, CoapPacket}
use zephyr_uoscore_uedhoc.Memory.{of_bytes, ok}
use zephyr_uoscore_uedhoc.Coap.Decode.{oscore_packet_options_parser}
use zephyr_uoscore_uedhoc.Coap.Encode.{option_header, options_into_byte_string}
use zephyr_uoscore_uedhoc.Coap.Write.{IsPacket, coap2buf-packet_bytes, packet_bytes}

-- Uri-Host "ab" and an empty Uri-Path.
abbrev host : CoapOption
host = record { delta = 3; len = 2; value = b'a' ∷ b'b' ∷ []; option_number = 3 }

abbrev path : CoapOption
path = record { delta = 8; len = 0; value = []; option_number = 11 }

host-IsEncodable : IsEncodable host
host-IsEncodable = record { value_len = refl; len_lt = omega arith; delta_lt = omega arith }

path-IsEncodable : IsEncodable path
path-IsEncodable = record { value_len = refl; len_lt = omega arith; delta_lt = omega arith }

abbrev options : List CoapOption
options = host ∷ path ∷ []

oscore_packet_options_parser-layout_example :
    (options_into_byte_string (max_options_len options) options (max_options_len options)
      ≡ ok (layout options))
    × (oscore_packet_options_parser 10 (layout options ++ 0xFF ∷ []) (length (layout options))
        ≡ ok (pointing_all options (0xFF ∷ [])))
unfolding max_options_len
oscore_packet_options_parser-layout_example =
    oscore_packet_options_parser-layout options 10 (0xFF ∷ [])
      (host-IsEncodable, (path-IsEncodable, tt)) (refl, (refl, tt)) (omega arith) (omega arith)

options_into_byte_string-layout_example :
    options_into_byte_string 20 options 15 ≡ ok (layout options)
unfolding max_options_len
options_into_byte_string-layout_example =
    options_into_byte_string-layout options 20 15 (host-IsEncodable, (path-IsEncodable, tt))
      (omega arith) (omega arith) (omega arith)

-- A confirmable GET with a token and a payload.
abbrev packet : CoapPacket
packet = record {
  header = record { ver = 1; type = 0; tkl = 1; code = 1; mid = 7 };
  token = 5 ∷ [];
  options = options;
  payload_len = 2;
  payload = 8 ∷ 9 ∷ [];
}

packet-IsPacket : IsPacket packet
unfolding max_options_len
packet-IsPacket = record {
  ver_lt = omega arith;
  type_lt = omega arith;
  tkl_le = omega arith;
  mid_lt = omega arith;
  token_len = refl;
  options = (host-IsEncodable, (path-IsEncodable, tt));
  options_fit = omega arith;
  payload_fits = refl;
}

coap2buf-packet_bytes_example :
    coap2buf packet 64 ≡ ok (record { bytes = packet_bytes packet; len = 12 })
unfolding header_bytes option_header
coap2buf-packet_bytes_example =
    coap2buf-packet_bytes packet 64 packet-IsPacket (omega arith) (omega arith)

packet-IsReadable : IsReadable packet
unfolding option_header
packet-IsReadable = record {
  packet = packet-IsPacket;
  short = ((host-IsEncodable, omega arith), ((path-IsEncodable, omega arith), tt));
  numbered = (refl, (refl, tt));
  options_count = omega arith;
  no_marker = (omega arith, (omega arith, (omega arith, (omega arith, tt))));
  not_empty = omega arith;
}

buf2coap-packet_bytes_example :
    buf2coap (of_bytes (packet_bytes packet)) packet ≡ ok (parsed packet)
unfolding header_bytes option_header
buf2coap-packet_bytes_example = buf2coap-packet_bytes packet packet packet-IsReadable (omega arith)
