-- ===== src/Exchange/Contexts.antt =====
-- The nonce and the AAD that the two endpoints compute for a request
-- (src/oscore/security_context.c, src/oscore/nonce.c and src/oscore/aad.c).
use zephyr_uoscore_uedhoc.Prelude.{
  ℕ, ◌≡◌, List, [], length, some, ◌≤◌, arith, drop, ltb, lt→ltb, true, u32, ◌%◌, ◌++◌, ◌+◌, ◌<◌,
  ◌^◌, ◌∙◌, false, le→ltb,
}
use zephyr_uoscore_uedhoc.Context.{Context}
use zephyr_uoscore_uedhoc.Context.Piv.{little_endian, sender_seq_num2piv}
use zephyr_uoscore_uedhoc.Context.Cose.{create_aad, max_i_options, create_enc_structure}
use zephyr_uoscore_uedhoc.Options.Encoding.{
  encode_options, encode_options-class_i, encoded_option_len, encoded_option_len-class_i,
}
use zephyr_uoscore_uedhoc.Context.PivLaws.{
  piv_size, length-little_endian, piv_array, piv_size_bounds, sender_seq_num2piv-piv_array,
}
use zephyr_uoscore_uedhoc.Crypto.{AadArray, External}
use zephyr_uoscore_uedhoc.Context.NonceLaws.{create_nonce-plain, held, nonce_plain}
use zephyr_uoscore_uedhoc.Memory.{ByteArray, Bytes, of_bytes, ok}
use zephyr_uoscore_uedhoc.Context.Nonce.{xor_bytes, create_nonce}
use zephyr_uoscore_uedhoc.Context.Update.{set_aad, set_nonce, update_nonce_aad, context_update}
use zephyr_uoscore_uedhoc.Coap.{CoapOption, CoapPacket}
use zephyr_uoscore_uedhoc.Memory.Laws.{check_fits}
use zephyr_uoscore_uedhoc.Protect.Run.{next_seq_num, oscore_option_for}
use zephyr_uoscore_uedhoc.Protect.{is_request_code}
use zephyr_uoscore_uedhoc.OscoreOption.Wire.{
  wire, has_context_bounds, length-wire, oscore_option_generate-wire,
}
use zephyr_uoscore_uedhoc.Protect.Steps.{request_option}
use zephyr_uoscore_uedhoc.Options.{coap_option_oscore}
use zephyr_uoscore_uedhoc.OscoreOption.RoundTrip.{get_oscore_opt_val_len-wire}
use zephyr_uoscore_uedhoc.OscoreOption.{oscore_opt_value_len}

-- The PIV of a sequence number.
abbrev pub piv_bytes : ℕ → Bytes
piv_bytes number = little_endian (piv_size number) number

abbrev pub aad_of : ℕ → ByteArray → ByteArray → AadArray
aad_of alg kid piv = record {
  oscore_version = 1;
  alg_aead = alg;
  request_kid = kid;
  request_piv = piv;
  options = record { len = 0; ptr = [] };
}

module _ (ex : External) where
  -- The encoder of the AAD takes of an array the bytes that its length says.
  abbrev pub ReadsContent : Type 0
  ReadsContent =
      (size alg : ℕ) (kid piv r r' : Bytes)
      → ex.cbor_encode_aad_array size (aad_of alg (held kid r) (held piv r'))
        ≡ ex.cbor_encode_aad_array size (aad_of alg (of_bytes kid) (of_bytes piv))

  create_aad_lem :
      (options : List CoapOption) (alg : ℕ) (kid piv aad : Bytes) (a b : ByteArray) (size : ℕ)
      (r r' : Bytes)
      → ReadsContent
      → a ≡ held kid r
      → b ≡ held piv r'
      → ex.cbor_encode_aad_array size (aad_of alg (of_bytes kid) (of_bytes piv)) ≡ some aad
      → create_aad ex options alg a b size ≡ ok (of_bytes aad)
  unfolding create_aad encoded_option_len encode_options
  create_aad_lem options alg kid piv aad a b size r r' law k p e = rw (
    encoded_option_len-class_i options 0 0,
    encode_options-class_i options 0 0 [],
    check_fits max_i_options 0 (omega arith),
    k,
    p,
    law size alg kid piv r r',
    e,
  )

  -- The nonce and the AAD are those of the KID, the PIV, the common IV and the algorithm.
  pub update_nonce_aad_lem :
      (options : List CoapOption) (c : Context) (kid piv r r' nonce aad : Bytes)
      → ReadsContent
      → c.rrc.kid ≡ held kid r
      → c.rrc.piv ≡ held piv r'
      → length kid ≤ 7
      → length piv ≤ 5
      → xor_bytes c.cc.common_iv.len (nonce_plain kid piv) c.cc.common_iv.ptr ≡ ok nonce
      → ex.cbor_encode_aad_array c.rrc.aad.len (aad_of c.cc.aead_alg (of_bytes kid) (of_bytes piv))
        ≡ some aad
      → update_nonce_aad ex options c ≡ (
        ok tt,
        set_aad (of_bytes aad) (set_nonce (record { len = c.rrc.nonce.len; ptr = nonce }) c),
      )
  unfolding update_nonce_aad
  update_nonce_aad_lem options c kid piv r r' nonce aad law k p lk lp x e =
      let plain : create_nonce c.rrc.kid c.rrc.piv c.cc.common_iv c.rrc.nonce
          ≡ ok (record { len = c.rrc.nonce.len; ptr = nonce }) =
        rw (k, p, create_nonce-plain kid piv r r' c.cc.common_iv c.rrc.nonce lk lp, x) in
      let encoded_aad =
        create_aad_lem options c.cc.aead_alg kid piv aad c.rrc.kid c.rrc.piv c.rrc.aad.len r r' law
          k p e in
      ground (arith, plain, encoded_aad)

-- The client and the server of a request: what was derived and agreed before it. `kid` is the
-- sender's identifier and `ctx` the KID context; behind them stands what the buffers hold more.
pub record Peers (kid ctx : Bytes) (sender recipient : Context) : Type 0 where
  pub number_lt : sender.sc.sender_seq_num < 2 ^ 40
  pub kid_len : length kid ≤ 7
  pub ctx_len : length ctx ≤ 8
  pub sender_kid_rest : Bytes
  pub sender_kid : sender.rrc.kid ≡ held kid sender_kid_rest
  pub sender_ctx_rest : Bytes
  pub sender_ctx : sender.rrc.kid_context ≡ held ctx sender_ctx_rest
  pub recipient_kid_rest : Bytes
  pub recipient_kid : recipient.rrc.kid ≡ held kid recipient_kid_rest
  pub recipient_id_rest : Bytes
  pub recipient_id : recipient.rc.recipient_id ≡ held kid recipient_id_rest
  pub id_context_rest : Bytes
  pub id_context : recipient.cc.id_context ≡ held ctx id_context_rest
  pub common_iv : recipient.cc.common_iv ≡ sender.cc.common_iv
  pub iv_len : sender.cc.common_iv.len ≡ 13
  pub iv_there : 13 ≤ length sender.cc.common_iv.ptr
  pub alg : recipient.cc.aead_alg ≡ sender.cc.aead_alg
  pub key : recipient.rc.recipient_key ≡ sender.sc.sender_key
  pub key_there : 16 ≤ length sender.sc.sender_key.ptr
  pub reply_key : sender.rc.recipient_key ≡ recipient.sc.sender_key
  pub reply_key_there : 16 ≤ length recipient.sc.sender_key.ptr
  pub sender_nonce_len : sender.rrc.nonce.len ≡ 13
  pub recipient_nonce_len : recipient.rrc.nonce.len ≡ 13
  pub aad_len : recipient.rrc.aad.len ≡ sender.rrc.aad.len

-- The encoders make an AAD and its encryption structure for the sender's next request, which fit
-- their buffers.
pub record Encodes (ex : External) (kid aad : Bytes) (sender : Context) : Type 0 where
  pub aad_made :
      ex.cbor_encode_aad_array sender.rrc.aad.len
        (aad_of sender.cc.aead_alg (of_bytes kid) (of_bytes (piv_bytes sender.sc.sender_seq_num)))
      ≡ some aad
  pub aad_short : length aad ≤ 14
  pub structure : ByteArray
  pub structured : create_enc_structure ex (of_bytes aad) (u32 (length aad + 16)) ≡ ok structure
  pub structure_there : structure.len ≤ length structure.ptr

-- The contexts with the nonce and the AAD of a request.
abbrev pub sent : Context → Bytes → Bytes → Context
sent c nonce aad =
    let n = c.sc.sender_seq_num in
    record c {
      sc = record (c.sc) { sender_seq_num = (n + 1) % 2 ^ 64 };
      rrc = record (c.rrc) {
        piv = piv_array n c.rrc.piv.ptr;
        nonce = record { len = c.rrc.nonce.len; ptr = nonce };
        aad = of_bytes aad;
      };
    }

piv_array-held :
    (n : ℕ) (old : Bytes) → piv_array n old ≡ held (piv_bytes n) (drop (piv_size n) old)
piv_array-held n old = rw (length-little_endian (piv_size n) n)

request_option_lem :
    (piv ctx kid r r' r'' buf : Bytes) (c : Context)
    → c.rrc.piv ≡ held piv r
    → c.rrc.kid ≡ held kid r'
    → c.rrc.kid_context ≡ held ctx r''
    → (0 < length piv) × (length piv ≤ 5)
    → length ctx ≤ 8
    → length kid ≤ 7
    → length (wire piv ctx kid) ≤ length buf
    → request_option buf c
      ≡ ok (record {
        option_number = coap_option_oscore;
        len = length (wire piv ctx kid);
        value = wire piv ctx kid ++ drop (length (wire piv ctx kid)) buf;
      })
unfolding request_option
request_option_lem piv ctx kid r r' r'' buf c p k x lp lc lk fits =
    let size = get_oscore_opt_val_len-wire piv ctx kid r r' r'' lp lc lk in
    let bound : ltb oscore_opt_value_len (length (wire piv ctx kid)) ≡ false =
      let (cb, hc) = has_context_bounds ctx in
      le→ltb oscore_opt_value_len _ (omega (arith, length-wire piv ctx kid)) in
    let made =
      oscore_option_generate-wire piv ctx kid r r' r'' buf coap_option_oscore lp lc lk fits in
    rw (p, k, x, size, bound, made)

module _ (ex : External) where
  -- The client's option for a request, and its context afterwards.
  pub oscore_option_for_request :
      (p : CoapPacket) (kid ctx nonce aad buf : Bytes) (sender recipient : Context)
      → ReadsContent ex
      → Peers kid ctx sender recipient
      → Encodes ex kid aad sender
      → xor_bytes sender.cc.common_iv.len
          (nonce_plain kid (piv_bytes sender.sc.sender_seq_num))
          sender.cc.common_iv.ptr
        ≡ ok nonce
      → is_request_code p.header.code ≡ true
      → (let w = wire (piv_bytes sender.sc.sender_seq_num) ctx kid in
          length w ≤ length buf
          → oscore_option_for ex p buf sender ≡ (
            ok (record {
              option_number = coap_option_oscore;
              len = length w;
              value = w ++ drop (length w) buf;
            }),
            sent sender nonce aad,
          ))
  unfolding oscore_option_for next_seq_num context_update request_option
  oscore_option_for_request p kid ctx nonce aad buf sender recipient law h e x request fits =
      let n = sender.sc.sender_seq_num in
      let piv = piv_bytes n in
      let bounds = piv_size_bounds n in
      let piv_len = length-little_endian (piv_size n) n in
      let below : ltb n (2 ^ 40) ≡ true = lt→ltb n (2 ^ 40) h.number_lt in
      let counted : sender_seq_num2piv n sender.rrc.piv ≡ ok (piv_array n sender.rrc.piv.ptr) =
        sender_seq_num2piv-piv_array n sender.rrc.piv (let lt = h.number_lt in omega arith)
        ∙ rw below in
      let c : Context = record sender {
        sc = record (sender.sc) { sender_seq_num = (n + 1) % 2 ^ 64 };
        rrc = record (sender.rrc) { piv = piv_array n sender.rrc.piv.ptr };
      } in
      let updated =
        update_nonce_aad_lem ex p.options c kid piv h.sender_kid_rest
          (drop (piv_size n) sender.rrc.piv.ptr) nonce aad law h.sender_kid
          (piv_array-held n sender.rrc.piv.ptr) h.kid_len (omega arith) x e.aad_made in
      let r = drop (piv_size n) sender.rrc.piv.ptr in
      let c' = sent sender nonce aad in
      let requested =
        request_option_lem piv ctx kid r h.sender_kid_rest h.sender_ctx_rest buf c'
          (piv_array-held n sender.rrc.piv.ptr) h.sender_kid h.sender_ctx (omega arith, omega arith)
          h.ctx_len h.kid_len fits in
      ground (arith, counted, updated, requested, request)
