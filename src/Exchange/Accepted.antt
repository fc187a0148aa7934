-- ===== src/Exchange/Accepted.antt =====
-- What `oscore2coap` (src/oscore/oscore2coap.c) checks of a request, and the context that it sets
-- for it.
use zephyr_uoscore_uedhoc.Prelude.{
  ℕ, ◌≡◌, List, [], arith, drop, if◌then◌else◌, length, refl, some, true, ◌++◌, ◌<◌, ◌==◌, ◌∷◌, ◌≤◌,
}
use zephyr_uoscore_uedhoc.Context.{server, Context}
use zephyr_uoscore_uedhoc.Memory.Laws.{memcpy_s_fits}
use zephyr_uoscore_uedhoc.Memory.{
  Bytes, array_equals, array_equals_from, copy_array, deref, memcpy_s, of_bytes, ok,
}
use zephyr_uoscore_uedhoc.Exchange.Contexts.{
  Encodes, Peers, ReadsContent, aad_of, piv_bytes, update_nonce_aad_lem,
}
use zephyr_uoscore_uedhoc.Context.Nonce.{xor_bytes}
use zephyr_uoscore_uedhoc.OscoreOption.Wire.{context_bytes, has_context}
use zephyr_uoscore_uedhoc.Context.PivLaws.{length-little_endian, piv_size, piv_size_bounds}
use zephyr_uoscore_uedhoc.Replay.{replay_check}
use zephyr_uoscore_uedhoc.Unprotect.Run.{accept_request}
use zephyr_uoscore_uedhoc.Coap.{CoapOption, CoapPacket, max_piv_len}
use zephyr_uoscore_uedhoc.Context.Update.{context_update}
use zephyr_uoscore_uedhoc.Context.NonceLaws.{held, nonce_plain}
use zephyr_uoscore_uedhoc.OscoreOption.RoundTrip.{received}
use zephyr_uoscore_uedhoc.Crypto.{External}

array_equals_from-zero : (r r' : Bytes) → array_equals_from 0 r r' ≡ ok true
unfolding array_equals_from
array_equals_from-zero [] r' = refl
array_equals_from-zero (x ∷ r) [] = refl
array_equals_from-zero (x ∷ r) (y ∷ r') = refl

array_equals_from-prefix :
    (xs r r' : Bytes) → array_equals_from (length xs) (xs ++ r) (xs ++ r') ≡ ok true
unfolding array_equals_from
array_equals_from-prefix [] r r' = array_equals_from-zero r r'
array_equals_from-prefix (x ∷ xs) r r' = ground (arith, array_equals_from-prefix xs r r')

-- Arrays of one content are equal, whatever their buffers hold behind it.
pub array_equals-held : (xs r r' : Bytes) → array_equals (held xs r) (held xs r') ≡ ok true
unfolding array_equals
array_equals-held xs r r' =
    let same : (length xs == length xs) ≡ true = ground arith in
    rw (same, array_equals_from-prefix xs r r')

received_context-held :
    (piv ctx kid rest : Bytes)
    → (received piv ctx kid rest).kid_context
      ≡ held ctx (if has_context ctx == 0 then [] else kid ++ rest)
received_context-held piv [] kid rest = refl
received_context-held piv (c ∷ ctx) kid rest = refl

pub first_byte :
    (piv : Bytes) → 0 < length piv → (b : ℕ) × ((tail : Bytes) → deref (piv ++ tail) ≡ ok b)
unfolding deref
first_byte [] h = absurd (omega arith)
first_byte (b ∷ piv) h = (b, λ tail. refl)

-- The context with the PIV, the nonce and the AAD of a request.
abbrev pub accepted : Context → Bytes → Bytes → Bytes → Context
accepted c piv nonce aad = record c {
  rrc = record (c.rrc) {
    piv = held piv (drop (length piv) c.rrc.piv.ptr);
    nonce = record { len = c.rrc.nonce.len; ptr = nonce };
    aad = of_bytes aad;
  };
}

module _ (ex : External) where
  context_update_lem :
      (options : List CoapOption) (piv ctx r a b tail nonce aad kid : Bytes) (c : Context)
      → ReadsContent ex
      → c.rrc.kid ≡ held kid r
      → c.cc.id_context ≡ held ctx a
      → length kid ≤ 7
      → length piv ≤ 5
      → xor_bytes c.cc.common_iv.len (nonce_plain kid piv) c.cc.common_iv.ptr ≡ ok nonce
      → ex.cbor_encode_aad_array c.rrc.aad.len (aad_of c.cc.aead_alg (of_bytes kid) (of_bytes piv))
        ≡ some aad
      → context_update ex server options (held piv tail) (held ctx b) c
        ≡ (ok tt, accepted c piv nonce aad)
  unfolding context_update copy_array
  context_update_lem options piv ctx r a b tail nonce aad kid c law k i lk lp x e =
      let copied : memcpy_s c.rrc.piv.ptr max_piv_len (piv ++ tail) (length piv)
          ≡ ok (piv ++ drop (length piv) c.rrc.piv.ptr) =
        memcpy_s_fits c.rrc.piv.ptr max_piv_len piv tail lp in
      let same : array_equals c.cc.id_context (held ctx b) ≡ ok true =
        rw i (array_equals-held ctx a b) in
      let c' : Context = record c {
        rrc = record (c.rrc) { piv = held piv (drop (length piv) c.rrc.piv.ptr) };
      } in
      let updated =
        update_nonce_aad_lem ex options c' kid piv r (drop (length piv) c.rrc.piv.ptr) nonce aad law
          k refl lk lp x e in
      ground (arith, copied, same, updated)

  -- A request from the peer is accepted, with the nonce and the AAD that the peer computed.
  pub accept_request_lem :
      (q : CoapPacket) (kid ctx nonce aad rest : Bytes) (sender recipient : Context)
      → ReadsContent ex
      → Peers kid ctx sender recipient
      → Encodes ex kid aad sender
      → xor_bytes sender.cc.common_iv.len
          (nonce_plain kid (piv_bytes sender.sc.sender_seq_num))
          sender.cc.common_iv.ptr
        ≡ ok nonce
      → accept_request ex q (received (piv_bytes sender.sc.sender_seq_num) ctx kid rest) recipient
        ≡ (ok tt, accepted recipient (piv_bytes sender.sc.sender_seq_num) nonce aad)
  unfolding accept_request replay_check
  accept_request_lem q kid ctx nonce aad rest sender recipient law h e x =
      let n = sender.sc.sender_seq_num in
      let piv = piv_bytes n in
      let bounds = piv_size_bounds n in
      let piv_len = length-little_endian (piv_size n) n in
      let mine : array_equals recipient.rc.recipient_id (held kid rest) ≡ ok true =
        rw (h.recipient_id) (array_equals-held kid h.recipient_id_rest rest) in
      let tail = context_bytes ctx ++ (kid ++ rest) in
      let (b, starts) = first_byte piv (omega arith) in
      let first = starts tail in
      let nonce_made : xor_bytes recipient.cc.common_iv.len (nonce_plain kid piv)
            recipient.cc.common_iv.ptr
          ≡ ok nonce =
        rw (h.common_iv) x in
      let aad_made : ex.cbor_encode_aad_array recipient.rrc.aad.len
            (aad_of recipient.cc.aead_alg (of_bytes kid) (of_bytes piv))
          ≡ some aad =
        rw (h.alg, h.aad_len) e.aad_made in
      let updated =
        context_update_lem q.options piv ctx h.recipient_kid_rest h.id_context_rest
          (if has_context ctx == 0 then [] else kid ++ rest) tail nonce aad kid recipient law
          h.recipient_kid h.id_context h.kid_len (omega arith) nonce_made aad_made in
      let o = received piv ctx kid rest in
      let updated' : context_update ex server q.options o.piv o.kid_context recipient
          ≡ (ok tt, accepted recipient piv nonce aad) =
        rw (received_context-held piv ctx kid rest) updated in
      ground (arith, mine, first, updated')
