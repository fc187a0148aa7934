-- ===== src/Tests/Exchanged.antt =====
-- A GET and its response between a client with the ID 1 and a server with the ID 2.
use zephyr_uoscore_uedhoc.Prelude.{
  ◌≡◌, [], ap, arith, length, length-append, refl, replicate, some, take-append, ◌++◌, ◌+◌, ◌-◌,
  ◌∷◌, ◌<◌, ◌≤◌,
}
use zephyr_uoscore_uedhoc.Tests.Endpoints.{
  context, external, get_parsed, locals, no_packet, option_buffer, zeros,
}
use zephyr_uoscore_uedhoc.Exchange.{IsProtectable}
use zephyr_uoscore_uedhoc.Exchange.Contexts.{Encodes, Peers}
use zephyr_uoscore_uedhoc.Context.Cose.{create_enc_structure}
use zephyr_uoscore_uedhoc.Exchange.Cipher.{IsCipher}
use zephyr_uoscore_uedhoc.Coap.Packet.{max_options_len, Output, header_bytes}
use zephyr_uoscore_uedhoc.Options.{is_class_e}
use zephyr_uoscore_uedhoc.Coap.Encode.{option_header}
use zephyr_uoscore_uedhoc.Context.{Context}
use zephyr_uoscore_uedhoc.Memory.{of_bytes, ok}
use zephyr_uoscore_uedhoc.Coap.{CoapPacket}
use zephyr_uoscore_uedhoc.Exchange.Exchanges.{request_response, Fits, delivered, option_value}
use zephyr_uoscore_uedhoc.Coap.Write.{packet_bytes}
use zephyr_uoscore_uedhoc.Coap.Layout.{IsEncodable}
use zephyr_uoscore_uedhoc.Unprotect.Run.{oscore2coap}
use zephyr_uoscore_uedhoc.Coap.Read.{NoMarker}
use zephyr_uoscore_uedhoc.Protect.Run.{coap2oscore}
use zephyr_uoscore_uedhoc.Context.Piv.{little_endian}

abbrev server_context : Context
server_context = record context {
  sc = record { sender_id = of_bytes (2 ∷ []); sender_key = zeros 16; sender_seq_num = 0 };
  rc = record {
    recipient_id = of_bytes (1 ∷ []);
    recipient_key = zeros 16;
    replay_window = replicate 32 0;
  };
}

-- 2.05 Content with a Content-Format and the payload "hi".
abbrev content : CoapPacket
content = record {
  header = record { ver = 1; type = 2; tkl = 0; code = 69; mid = 7 };
  token = [];
  options = record { delta = 12; len = 0; value = []; option_number = 12 } ∷ [];
  payload_len = 2;
  payload = b'h' ∷ b'i' ∷ [];
}

external-IsCipher : IsCipher external
external-IsCipher k n a m lk ln =
    let size : length (m ++ replicate 8 0) ≡ length m + 8 = length-append m (replicate 8 0) in
    let back : length (m ++ replicate 8 0) - 8 ≡ length m = omega (arith, size) in
    (m ++ replicate 8 0, refl, rw back (ap some (take-append m (replicate 8 0))), size)

peers : Peers (1 ∷ []) [] context server_context
peers = record {
  number_lt = omega arith;
  kid_len = omega arith;
  ctx_len = omega arith;
  sender_kid_rest = [];
  sender_kid = refl;
  sender_ctx_rest = replicate 8 0;
  sender_ctx = refl;
  recipient_kid_rest = [];
  recipient_kid = refl;
  recipient_id_rest = [];
  recipient_id = refl;
  id_context_rest = [];
  id_context = refl;
  common_iv = refl;
  iv_len = refl;
  iv_there = omega arith;
  alg = refl;
  key = refl;
  key_there = omega arith;
  reply_key = refl;
  reply_key_there = omega arith;
  sender_nonce_len = refl;
  recipient_nonce_len = refl;
  aad_len = refl;
}

encodes : Encodes external (1 ∷ []) [] context
unfolding create_enc_structure
encodes = record {
  aad_made = refl;
  aad_short = omega arith;
  structure = of_bytes [];
  structured = refl;
  structure_there = omega arith;
}

path-IsEncodable :
    IsEncodable (record { delta = 11; len = 1; value = b'a' ∷ []; option_number = 11 })
path-IsEncodable = record { value_len = refl; len_lt = omega arith; delta_lt = omega arith }

format-IsEncodable : IsEncodable (record { delta = 12; len = 0; value = []; option_number = 12 })
format-IsEncodable = record { value_len = refl; len_lt = omega arith; delta_lt = omega arith }

get-IsProtectable : IsProtectable get_parsed
unfolding max_options_len option_header is_class_e
get-IsProtectable = record {
  readable = record {
    packet = record {
      ver_lt = omega arith;
      type_lt = omega arith;
      tkl_le = omega arith;
      mid_lt = omega arith;
      token_len = refl;
      options = (path-IsEncodable, tt);
      options_fit = omega arith;
      payload_fits = refl;
    };
    short = ((path-IsEncodable, omega arith), tt);
    numbered = (refl, tt);
    options_count = omega arith;
    no_marker = (omega arith, (omega arith, tt));
    not_empty = omega arith;
  };
  ascending = (refl, omega arith, tt);
  counted = (record { class_e = refl; not_13 = omega arith; small = omega arith }, tt);
  e_options_fit = omega arith;
  plaintext_fits = omega arith;
}

content-IsProtectable : IsProtectable content
unfolding max_options_len option_header is_class_e
content-IsProtectable = record {
  readable = record {
    packet = record {
      ver_lt = omega arith;
      type_lt = omega arith;
      tkl_le = omega arith;
      mid_lt = omega arith;
      token_len = refl;
      options = (format-IsEncodable, tt);
      options_fit = omega arith;
      payload_fits = refl;
    };
    short = ((format-IsEncodable, omega arith), tt);
    numbered = (refl, tt);
    options_count = omega arith;
    no_marker = (omega arith, tt);
    not_empty = omega arith;
  };
  ascending = (refl, omega arith, tt);
  counted = (record { class_e = refl; not_13 = omega arith; small = omega arith }, tt);
  e_options_fit = omega arith;
  plaintext_fits = omega arith;
}

Fits-get : Fits get_parsed (length (option_value context [] (1 ∷ []))) locals 64 64
unfolding header_bytes option_header little_endian
Fits-get = record {
  plaintext_bytes = refl;
  output = omega arith;
  size_lt = omega arith;
  output' = omega arith;
  size_lt' = omega arith;
}

Fits-content : Fits content 0 locals 64 64
unfolding header_bytes option_header
Fits-content = record {
  plaintext_bytes = refl;
  output = omega arith;
  size_lt = omega arith;
  output' = omega arith;
  size_lt' = omega arith;
}

value-NoMarker : NoMarker (option_value context [] (1 ∷ []))
unfolding little_endian
value-NoMarker = (omega arith, (omega arith, (omega arith, tt)))

value-lt : length (option_value context [] (1 ∷ [])) < 13
unfolding little_endian
value-lt = omega arith

value-le : length (option_value context [] (1 ∷ [])) ≤ length option_buffer
unfolding little_endian
value-le = omega arith

request_response_example :
    (out out' : Output) × (client' : Context) × (server' : Context) × (coap2oscore external
        no_packet option_buffer
        (of_bytes (packet_bytes get_parsed))
        64
        context
      ≡ (ok out, client'))
    × (oscore2coap external locals (record { len = out.len; ptr = out.bytes }) 64 server_context
        ≡ (delivered get_parsed, server'))
    × (coap2oscore external no_packet [] (of_bytes (packet_bytes content)) 64 server'
        ≡ (ok out', server'))
    × (oscore2coap external locals (record { len = out'.len; ptr = out'.bytes }) 64 client'
        ≡ (delivered content, client'))
request_response_example =
    request_response external get_parsed content no_packet no_packet (1 ∷ []) [] [] option_buffer []
      locals locals 64 64 64 64 context server_context external-IsCipher
      (λ size alg kid piv r r'. refl) peers encodes get-IsProtectable content-IsProtectable refl
      refl refl value-le value-lt value-NoMarker Fits-get Fits-content
