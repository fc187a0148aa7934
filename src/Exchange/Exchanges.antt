-- ===== src/Exchange/Exchanges.antt =====
-- A request and its response between two endpoints (src/oscore/coap2oscore.c and
-- src/oscore/oscore2coap.c).
use zephyr_uoscore_uedhoc.Context.{◌>>=◌, Context, nonce_len, reads}
use zephyr_uoscore_uedhoc.Prelude.{
  ℕ, ◌≡◌, [], ap, arith, drop, false, length, length-append, refl, some, true, ◌&&◌, ◌++◌, ◌+◌, ◌<◌,
  ◌==◌, ◌∙◌, ◌≤◌,
}
use zephyr_uoscore_uedhoc.Coap.Layout.{layout}
use zephyr_uoscore_uedhoc.Coap.Read.{NoMarker, buf2coap-packet_bytes}
use zephyr_uoscore_uedhoc.Coap.{CoapPacket}
use zephyr_uoscore_uedhoc.Protect.{
  code_empty, code_req_post, is_request_code, max_plaintext_len, type_ack,
}
use zephyr_uoscore_uedhoc.Exchange.Steps.{outer_code, protect_packet_lem}
use zephyr_uoscore_uedhoc.Unprotect.Run.{Locals, Unprotected, oscore2coap}
use zephyr_uoscore_uedhoc.Coap.Write.{packet_bytes, payload_bytes}
use zephyr_uoscore_uedhoc.Context.NonceLaws.{length-padded, nonce_plain, padded, xor_bytes_total}
use zephyr_uoscore_uedhoc.Exchange.Cipher.{Agree, IsCipher}
use zephyr_uoscore_uedhoc.Protect.Run.{coap2oscore}
use zephyr_uoscore_uedhoc.Exchange.Requests.{oscore2coap_request, recorded}
use zephyr_uoscore_uedhoc.Exchange.Contexts.{
  Encodes, Peers, ReadsContent, oscore_option_for_request, piv_bytes, sent,
}
use zephyr_uoscore_uedhoc.Memory.{Bytes, Result, of_bytes, ok}
use zephyr_uoscore_uedhoc.Crypto.{External}
use zephyr_uoscore_uedhoc.Context.PivLaws.{length-little_endian, piv_size, piv_size_bounds}
use zephyr_uoscore_uedhoc.Exchange.{IsProtectable}
use zephyr_uoscore_uedhoc.Exchange.Accepted.{accepted, first_byte}
use zephyr_uoscore_uedhoc.Coap.Packet.{Output}
use zephyr_uoscore_uedhoc.Coap.Pointers.{parsed-spread, spread}
use zephyr_uoscore_uedhoc.OscoreOption.Wire.{wire}
use zephyr_uoscore_uedhoc.Exchange.Packets.{outer}
use zephyr_uoscore_uedhoc.Exchange.Responses.{oscore2coap-coap2oscore_response}

length-nonce_plain :
    (kid piv : Bytes) → length kid ≤ 7 → length piv ≤ 5 → length (nonce_plain kid piv) ≡ 13
length-nonce_plain kid piv h k = omega (
  arith,
  length-append (padded 7 kid) (padded 5 piv),
  length-padded 7 kid h,
  length-padded 5 piv k,
)

-- What a call of `oscore2coap` returns that has written the bytes of `p`.
abbrev pub delivered : CoapPacket → Result Unprotected
delivered p = ok (record {
  oscore_pkg_flag = true;
  output = some (record { bytes = packet_bytes p; len = length (packet_bytes p) });
})

-- The value of the OSCORE option of the sender's next request.
abbrev pub option_value : Context → Bytes → Bytes → Bytes
option_value sender ctx kid = wire (piv_bytes sender.sc.sender_seq_num) ctx kid

-- What the code needs of the sizes of one call on each side.
pub record Fits (p : CoapPacket) (value_len : ℕ) (locals : Locals) (size size' : ℕ) : Type 0 where
  pub plaintext_bytes : length locals.plaintext_bytes ≡ max_plaintext_len
  pub output : length (packet_bytes p) + 11 + value_len ≤ size
  pub size_lt : size < 4294967296
  pub output' : length (packet_bytes p) ≤ size'
  pub size_lt' : size' < 4294967296

module _ (ex : External) where
  Agree-request :
      (kid ctx nonce aad : Bytes) (sender recipient : Context)
      → Peers kid ctx sender recipient
      → Encodes ex kid aad sender
      → length nonce ≡ 13
      → Agree ex
          (sent sender nonce aad)
          (accepted recipient (piv_bytes sender.sc.sender_seq_num) nonce aad)
  Agree-request kid ctx nonce aad sender recipient h e l = record {
    nonce = rw (h.sender_nonce_len, h.recipient_nonce_len);
    aad = refl;
    key = h.key;
    nonce_len = h.sender_nonce_len;
    nonce_there = omega arith;
    key_there = h.key_there;
    aad_len = e.aad_short;
    structure = e.structure;
    structured = e.structured;
    structure_there = e.structure_there;
  }

  Agree-response :
      (kid ctx nonce aad : Bytes) (first : ℕ) (sender recipient : Context)
      → Peers kid ctx sender recipient
      → Encodes ex kid aad sender
      → length nonce ≡ 13
      → Agree ex
          (recorded first (accepted recipient (piv_bytes sender.sc.sender_seq_num) nonce aad))
          (sent sender nonce aad)
  Agree-response kid ctx nonce aad first sender recipient h e l = record {
    nonce = rw (h.sender_nonce_len, h.recipient_nonce_len);
    aad = refl;
    key = h.reply_key;
    nonce_len = h.recipient_nonce_len;
    nonce_there = omega arith;
    key_there = h.reply_key_there;
    aad_len = e.aad_short;
    structure = e.structure;
    structured = e.structured;
    structure_there = e.structure_there;
  }

  pub oscore2coap-coap2oscore_request :
      (p pkt : CoapPacket) (kid ctx aad buf : Bytes) (locals : Locals) (size size' : ℕ)
      (sender recipient : Context)
      → IsCipher ex
      → ReadsContent ex
      → Peers kid ctx sender recipient
      → Encodes ex kid aad sender
      → IsProtectable p
      → is_request_code p.header.code ≡ true
      → (p.header.code == code_empty && p.header.type == type_ack) ≡ false
      → length (option_value sender ctx kid) ≤ length buf
      → length (option_value sender ctx kid) < 13
      → NoMarker (option_value sender ctx kid)
      → Fits p (length (option_value sender ctx kid)) locals size size'
      → (out : Output) × (sender' : Context) × (recipient' : Context) × (coap2oscore ex pkt buf
            (of_bytes (packet_bytes p))
            size
            sender
          ≡ (ok out, sender'))
        × (oscore2coap ex locals (record { len = out.len; ptr = out.bytes }) size' recipient
            ≡ (delivered p, recipient'))
        × Agree ex recipient' sender'
  unfolding coap2oscore
  oscore2coap-coap2oscore_request p pkt kid ctx aad buf locals size size' sender recipient law reads
        h e ready request not_ack room lt n f =
      let number = sender.sc.sender_seq_num in
      let piv = piv_bytes number in
      let w = option_value sender ctx kid in
      let bounds = piv_size_bounds number in
      let piv_len = length-little_endian (piv_size number) number in
      let len = length-nonce_plain kid piv h.kid_len (omega arith) in
      let (nonce, x, nonce_len) =
        xor_bytes_total sender.cc.common_iv.len (nonce_plain kid piv) sender.cc.common_iv.ptr
          (let l = h.iv_len in omega arith)
          (let l = h.iv_len in let t = h.iv_there in omega arith) in
      let agree = Agree-request kid ctx nonce aad sender recipient h e (omega arith) in
      let a = layout p.options ++ payload_bytes p in
      let b = payload_bytes p in
      let option =
        oscore_option_for_request ex (spread p a b []) kid ctx nonce aad buf sender recipient reads
          h e x request room in
      let code : outer_code p.header.code ≡ code_req_post = rw request refl in
      let (c, made, size_c, dec) =
        protect_packet_lem ex p a b [] w (drop (length w) buf) buf locals.plaintext_bytes
          code_req_post size sender (sent sender nonce aad) (accepted recipient piv nonce aad) code
          law agree ready option lt n f.output f.size_lt in
      let total = f.output in
      let small = f.size_lt in
      let parse =
        buf2coap-packet_bytes p pkt ready.readable (omega arith) ∙ ap ok (parsed-spread p) in
      let (first, piv_first) = first_byte piv (omega arith) in
      (
        record {
          bytes = packet_bytes (outer p code_req_post w c);
          len = length (packet_bytes (outer p code_req_post w c));
        },
        sent sender nonce aad,
        recorded first (accepted recipient piv nonce aad),
        rw (◌>>=◌, parse, not_ack, made),
        oscore2coap_request ex p kid ctx nonce aad c first size' locals sender recipient reads h e x
            ready lt n piv_first size_c dec f.plaintext_bytes (omega arith) f.output' f.size_lt',
        Agree-response kid ctx nonce aad first sender recipient h e (omega arith),
      )

  -- Between two endpoints that derived the same keys and common IV, and agree on the
  -- identifiers, the ID context and the AEAD algorithm, coap2oscore protects a request,
  -- oscore2coap of the peer opens it to the same bytes, coap2oscore of the peer protects the
  -- response, and oscore2coap opens it to the same bytes. Of both packets the header fits its
  -- bits, the token has at most 8 bytes, the lengths of token, values and payload are those of
  -- their bytes, and there is an option or a payload; every option is of class E, with a value
  -- shorter than 13 bytes, a delta below 243 that is not 13, and a number below 256 that is the
  -- sum of the deltas; there are at most 20 options, their values with 5 bytes for each have at
  -- most 30 bytes, and their encoding holds no byte 0xFF; the plaintext is shorter than 128
  -- bytes. The request has the code of a request and is no empty acknowledgement, the response
  -- another code. The sequence number is below 2^40, the KID has at most 7 and the KID context
  -- at most 8 bytes, and the OSCORE option's value is shorter than 13 bytes, fits its buffer and
  -- holds no byte 0xFF. The common IV has 13 bytes, keys 16, the nonces are 13 bytes long, and
  -- the lengths of both AAD agree. An output has room for the packet, and behind coap2oscore for
  -- 11 bytes and the option's value more, in less than 2^32 bytes, and the plaintext buffer of
  -- oscore2coap has 128. The AEAD decrypts what it encrypts, and its ciphertext is the tag
  -- longer; the encoders make an AAD of at most 14 bytes for the request, and its encryption
  -- structure, and read of an array what its length says.
  pub request_response :
      (p q pkt pkt' : CoapPacket) (kid ctx aad buf buf' : Bytes) (locals locals' : Locals)
      (size size' back back' : ℕ) (client server : Context)
      → IsCipher ex
      → ReadsContent ex
      → Peers kid ctx client server
      → Encodes ex kid aad client
      → IsProtectable p
      → IsProtectable q
      → is_request_code p.header.code ≡ true
      → is_request_code q.header.code ≡ false
      → (p.header.code == code_empty && p.header.type == type_ack) ≡ false
      → length (option_value client ctx kid) ≤ length buf
      → length (option_value client ctx kid) < 13
      → NoMarker (option_value client ctx kid)
      → Fits p (length (option_value client ctx kid)) locals size size'
      → Fits q 0 locals' back back'
      → (out out' : Output) × (client' : Context) × (server' : Context) × (coap2oscore ex pkt buf
            (of_bytes (packet_bytes p))
            size
            client
          ≡ (ok out, client'))
        × (oscore2coap ex locals (record { len = out.len; ptr = out.bytes }) size' server
            ≡ (delivered p, server'))
        × (coap2oscore ex pkt' buf' (of_bytes (packet_bytes q)) back server' ≡ (ok out', server'))
        × (oscore2coap ex locals' (record { len = out'.len; ptr = out'.bytes }) back' client'
            ≡ (delivered q, client'))
  request_response p q pkt pkt' kid ctx aad buf buf' locals locals' size size' back back' client
        server law reads h e ready ready' request response not_ack room lt n f f' =
      let (out, client', server', there, opened, agree) =
        oscore2coap-coap2oscore_request p pkt kid ctx aad buf locals size size' client server law
          reads h e ready request not_ack room lt n f in
      let (out', answered, delivered') =
        oscore2coap-coap2oscore_response ex q pkt' buf' locals' back back' server' client' law agree
          ready' response f'.plaintext_bytes (let o = f'.output in omega arith) f'.size_lt
          f'.output' f'.size_lt' in
      (out, out', client', server', there, opened, answered, delivered')
