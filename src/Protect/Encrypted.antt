-- ===== src/Protect/Encrypted.antt =====
-- What `coap2oscore` (src/oscore/coap2oscore.c) encrypts of a request, and with what.
use zephyr_uoscore_uedhoc.Prelude.{
  ℕ, ◌≡◌, ◌∙◌, ◌&&◌, ◌==◌, ap, arith, false, refl, subst, some, sym, true, u32, ◌+◌, [],
}
use zephyr_uoscore_uedhoc.Memory.{ByteArray, Bytes, Result, check_buffer_size, err, fault, ok, read}
use zephyr_uoscore_uedhoc.Memory.Laws.{bind_ok, store_ok}
use zephyr_uoscore_uedhoc.Context.{◌>>=◌, Action, Context, auth_tag_len, call, max_aad_len, reads}
use zephyr_uoscore_uedhoc.Context.Cose.{
  create_enc_structure, encrypt0_encoding_overhead, oscore_cose_encrypt,
}
use zephyr_uoscore_uedhoc.Context.NonceReuse.{nonce_of}
use zephyr_uoscore_uedhoc.Coap.{CoapPacket}
use zephyr_uoscore_uedhoc.Coap.Packet.{Output, buf2coap, coap2buf}
use zephyr_uoscore_uedhoc.Crypto.{External}
use zephyr_uoscore_uedhoc.Crypto.Expand.{expect-some}
use zephyr_uoscore_uedhoc.Crypto.Wrapper.{aead_encrypt, expect}
use zephyr_uoscore_uedhoc.OscoreOption.{OscoreOption}
use zephyr_uoscore_uedhoc.Protect.{code_empty, is_request_code, max_ciphertext_len, type_ack}
use zephyr_uoscore_uedhoc.Protect.Extract.{e_u_options_extract}
use zephyr_uoscore_uedhoc.Protect.Parts.{oscore_pkg_generate}
use zephyr_uoscore_uedhoc.Protect.Run.{coap2oscore, oscore_option_for, protect_packet}
use zephyr_uoscore_uedhoc.Protect.Sequence.{oscore_option_for-SameKeys, oscore_option_for-nonce}
use zephyr_uoscore_uedhoc.Protect.Steps.{make_plaintext, plaintext_encrypt, plaintext_length}

outcome_inv :
    {A B : Type 0} (r : Result A × Context) (f : A → Action B) (c c' : Context) (b : B)
    → ((λ (s : Context). r) >>= f) c ≡ (ok b, c')
    → (a : A) × (c₁ : Context) × (r ≡ (ok a, c₁)) × (f a c₁ ≡ (ok b, c'))
outcome_inv (ok a, s) f c c' b h = (a, s, refl, h)
outcome_inv (err e, s) f c c' b h = ground (arith, ap (λ x. x.0) h)
outcome_inv (fault, s) f c c' b h = ground (arith, ap (λ x. x.0) h)

-- A call that returns is a call that returns, and what follows it.
action_inv :
    {A B : Type 0} (m : Action A) (f : A → Action B) (c c' : Context) (b : B)
    → (m >>= f) c ≡ (ok b, c')
    → (a : A) × (c₁ : Context) × (m c ≡ (ok a, c₁)) × (f a c₁ ≡ (ok b, c'))
action_inv m f c c' b h = outcome_inv (m c) f c c' b h

-- A call of the AEAD that encrypts `plaintext`: the bytes that it is given, and its result.
pub record Seals (ex : External) (key nonce aad : ByteArray) (plaintext c : Bytes) (len : ℕ)
    : Type 0 where
  pub key_bytes : Bytes
  pub nonce_bytes : Bytes
  pub aad_bytes : Bytes
  pub message : Bytes
  pub key_read : read 16 key.ptr ≡ ok key_bytes
  pub nonce_read : read nonce.len nonce.ptr ≡ ok nonce_bytes
  pub aad_read : read aad.len aad.ptr ≡ ok aad_bytes
  pub message_read : read len plaintext ≡ ok message
  pub encrypted :
      ex.tc_ccm_generation_encryption key_bytes nonce_bytes auth_tag_len aad_bytes message ≡ some c

module _ (ex : External) where
  aead_encrypt-Seals :
      (plaintext : Bytes) (key nonce aad : ByteArray) (len out_len : ℕ) (c : Bytes)
      → aead_encrypt ex (record { len = len; ptr = plaintext }) key nonce aad out_len auth_tag_len
        ≡ ok c
      → Seals ex key nonce aad plaintext c len
  unfolding aead_encrypt
  aead_encrypt-Seals plaintext key nonce aad len out_len c h =
      let (k, k_read, h₁) = bind_ok (read 16 key.ptr) _ c h in
      let (n, n_read, h₂) = bind_ok (read nonce.len nonce.ptr) _ c h₁ in
      let (a, a_read, h₃) = bind_ok (read aad.len aad.ptr) _ c h₂ in
      let (m, m_read, h₄) = bind_ok (read len plaintext) _ c h₃ in
      let (out, enc, h₅) =
        bind_ok (expect (ex.tc_ccm_generation_encryption k n auth_tag_len a m)) _ c h₄ in
      let (room, whole) = store_ok (u32 (out_len + auth_tag_len)) [] out c h₅ in
      record {
        key_bytes = k;
        nonce_bytes = n;
        aad_bytes = a;
        message = m;
        key_read = k_read;
        nonce_read = n_read;
        aad_read = a_read;
        message_read = m_read;
        encrypted = expect-some _ out enc ∙ ap some whole;
      }

  plaintext_encrypt-Seals :
      (plaintext : Bytes) (len : ℕ) (s : Context) (c : Bytes)
      → plaintext_encrypt ex plaintext len s ≡ ok c
      → (aad : ByteArray) × (create_enc_structure ex s.rrc.aad
            (u32 (s.rrc.aad.len + encrypt0_encoding_overhead))
          ≡ ok aad)
        × Seals ex s.sc.sender_key s.rrc.nonce aad plaintext c len
  unfolding plaintext_encrypt oscore_cose_encrypt
  plaintext_encrypt-Seals plaintext len s c h =
      let aad_len = u32 (s.rrc.aad.len + encrypt0_encoding_overhead) in
      let (x, fits, h₁) =
        bind_ok (check_buffer_size max_ciphertext_len (u32 (len + auth_tag_len))) _ c h in
      let (y, aad_fits, h₂) = bind_ok (check_buffer_size max_aad_len aad_len) _ c h₁ in
      let (aad, made, h₃) = bind_ok (create_enc_structure ex s.rrc.aad aad_len) _ c h₂ in
      (aad, made, aead_encrypt-Seals plaintext s.sc.sender_key s.rrc.nonce aad len _ c h₃)

  -- What `protect_packet` puts out, and the context that it leaves.
  protect_packet-Seals :
      (p : CoapPacket) (buf : Bytes) (size : ℕ) (c c' : Context) (out : Output)
      → protect_packet ex p buf size c ≡ (ok out, c')
      → (let s = e_u_options_extract p.options in
          (plaintext : Bytes) × (o : OscoreOption) × (aad : ByteArray) × (ciphertext : Bytes)
          × (q : CoapPacket) × (make_plaintext p s ≡ ok plaintext)
          × (oscore_option_for ex p buf c ≡ (ok o, c'))
          × (create_enc_structure ex c'.rrc.aad (u32 (c'.rrc.aad.len + encrypt0_encoding_overhead))
              ≡ ok aad)
          × Seals ex c'.sc.sender_key c'.rrc.nonce aad plaintext ciphertext
              (plaintext_length p s.e_options_len)
          × (oscore_pkg_generate p s.u_options ciphertext o ≡ ok q)
          × (coap2buf q size ≡ ok out))
  unfolding protect_packet
  protect_packet-Seals p buf size c c' out h =
      let s = e_u_options_extract p.options in
      let len = plaintext_length p s.e_options_len in
      let written : CoapPacket → Action Output = λ q. call (coap2buf q size) in
      let packed : OscoreOption → Bytes → Action Output =
        λ o x. call (oscore_pkg_generate p s.u_options x o) >>= written in
      let sealed_with : Bytes → OscoreOption → Action Output =
        λ m o. reads (plaintext_encrypt ex m len) >>= packed o in
      let rest : Bytes → Action Output = λ m. oscore_option_for ex p buf >>= sealed_with m in
      let (plaintext, c₁, made, h₁) = action_inv (call (make_plaintext p s)) rest c c' out h in
      let (o, c₂, option, h₂) =
        action_inv (oscore_option_for ex p buf) (sealed_with plaintext) c₁ c' out h₁ in
      let (ciphertext, c₃, sealed, h₃) =
        action_inv (reads (plaintext_encrypt ex plaintext len)) (packed o) c₂ c' out h₂ in
      let (q, c₄, packet, h₄) =
        action_inv (call (oscore_pkg_generate p s.u_options ciphertext o)) written c₃ c' out h₃ in
      let before : c ≡ c₁ = ap (λ x. x.1) made in
      let after : c₂ ≡ c' = ap (λ x. x.1) sealed ∙ ap (λ x. x.1) packet ∙ ap (λ x. x.1) h₄ in
      let enc : plaintext_encrypt ex plaintext len c' ≡ ok ciphertext =
        ap (plaintext_encrypt ex plaintext len) (sym after) ∙ ap (λ x. x.0) sealed in
      let (aad, structured, seals) = plaintext_encrypt-Seals plaintext len c' ciphertext enc in
      (
        plaintext,
        o,
        aad,
        ciphertext,
        q,
        ap (λ x. x.0) made,
        ap (oscore_option_for ex p buf) before ∙ option ∙ ap (λ u. (ok o, u)) after,
        structured,
        seals,
        ap (λ x. x.0) packet,
        ap (λ x. x.0) h₄,
      )

  -- What `coap2oscore` returns for a request is written from the packet that oscore_pkg_generate
  -- makes of a ciphertext. The AEAD made that of the plaintext that make_plaintext gives, under
  -- the sender key and the nonce of the sequence number, both as they were before the call, with
  -- the encryption structure of the AAD that the context then holds as associated data.
  pub coap2oscore-nonce_of :
      (pkt p : CoapPacket) (buf : Bytes) (in_ : ByteArray) (size : ℕ) (c c' : Context)
      (out : Output)
      → buf2coap in_ pkt ≡ ok p
      → (p.header.code == code_empty && p.header.type == type_ack) ≡ false
      → is_request_code p.header.code ≡ true
      → coap2oscore ex pkt buf in_ size c ≡ (ok out, c')
      → (let s = e_u_options_extract p.options in
          (nonce aad : ByteArray) × (plaintext ciphertext : Bytes) × (o : OscoreOption)
          × (q : CoapPacket) × (nonce_of c.sc.sender_seq_num c.rrc.piv c.rrc.kid c.cc.common_iv
                c.rrc.nonce
              ≡ ok nonce)
          × (make_plaintext p s ≡ ok plaintext)
          × (create_enc_structure ex c'.rrc.aad (u32 (c'.rrc.aad.len + encrypt0_encoding_overhead))
              ≡ ok aad)
          × Seals ex c.sc.sender_key nonce aad plaintext ciphertext
              (plaintext_length p s.e_options_len)
          × (oscore_pkg_generate p s.u_options ciphertext o ≡ ok q)
          × (coap2buf q size ≡ ok out))
  unfolding coap2oscore
  coap2oscore-nonce_of pkt p buf in_ size c c' out e a r done =
      let protected : protect_packet ex p buf size c ≡ (ok out, c') = rw (◌>>=◌, e, a) at done in
      let (plaintext, o, aad, ciphertext, q, made, option, structured, seals, packet, written) =
        protect_packet-Seals p buf size c c' out protected in
      let numbered = oscore_option_for-nonce ex p buf c c' o option r in
      let same : c'.sc.sender_key ≡ c.sc.sender_key =
        sym (ap (λ x. x.1.sc.sender_key) option)
        ∙ (oscore_option_for-SameKeys ex p buf c).0.sender_key in
      (
        c'.rrc.nonce,
        aad,
        plaintext,
        ciphertext,
        o,
        q,
        numbered,
        made,
        structured,
        subst
            (λ k.
              Seals ex k c'.rrc.nonce aad plaintext ciphertext
                (plaintext_length p (e_u_options_extract p.options).e_options_len))
            same seals,
        packet,
        written,
      )
