-- ===== src/Protect/Sequence.antt =====
-- The context before and after `coap2oscore` (src/oscore/coap2oscore.c).
use zephyr_uoscore_uedhoc.Prelude.{
  List, if◌then◌else◌, ◌%◌, ◌+◌, ◌^◌, ◌≡◌, arith, ℕ, Bool, false, not, refl, true, ◌&&◌, ◌==◌,
}
use zephyr_uoscore_uedhoc.Memory.{Bytes, ByteArray, Result, err, fault, ok}
use zephyr_uoscore_uedhoc.Context.{Context}
use zephyr_uoscore_uedhoc.Coap.{CoapOption, CoapPacket}
use zephyr_uoscore_uedhoc.Crypto.{External}
use zephyr_uoscore_uedhoc.Context.Update.{update_nonce_aad, context_update}
use zephyr_uoscore_uedhoc.Protect.{is_request_code, code_empty, type_ack}
use zephyr_uoscore_uedhoc.Protect.Run.{oscore_option_for, coap2oscore, protect_packet, next_seq_num}
use zephyr_uoscore_uedhoc.Coap.Packet.{buf2coap}
use zephyr_uoscore_uedhoc.Context.NonceReuse.{nonce_of}
use zephyr_uoscore_uedhoc.Protect.Extract.{e_u_options_extract}
use zephyr_uoscore_uedhoc.OscoreOption.{OscoreOption}
use zephyr_uoscore_uedhoc.Protect.Steps.{make_plaintext}

-- The contexts agree but for the request-response context and the sequence number.
pub record SameKeys (c c' : Context) : Type 0 where
  pub cc : c'.cc ≡ c.cc
  pub rc : c'.rc ≡ c.rc
  pub sender_id : c'.sc.sender_id ≡ c.sc.sender_id
  pub sender_key : c'.sc.sender_key ≡ c.sc.sender_key

-- Whether there is a plaintext.
abbrev pub has_plaintext : Result Bytes → Bool
has_plaintext (ok b) = true
has_plaintext (err e) = false
has_plaintext fault = false

-- Whether a packet takes a sequence number.
abbrev pub takes_seq_num : Result CoapPacket → Bool
takes_seq_num (ok p) =
    not (p.header.code == code_empty && p.header.type == type_ack)
    && (is_request_code p.header.code
        && has_plaintext (make_plaintext p (e_u_options_extract p.options)))
takes_seq_num (err e) = false
takes_seq_num fault = false

module _ (ex : External) where
  update_nonce_aad-SameKeys :
      (options : List CoapOption) (c : Context)
      → SameKeys c (update_nonce_aad ex options c).1
        × ((update_nonce_aad ex options c).1.sc.sender_seq_num ≡ c.sc.sender_seq_num)
  unfolding update_nonce_aad
  update_nonce_aad-SameKeys options c = ground arith

  pub oscore_option_for-SameKeys :
      (p : CoapPacket) (buf : Bytes) (c : Context)
      → SameKeys c (oscore_option_for ex p buf c).1
        × ((oscore_option_for ex p buf c).1.sc.sender_seq_num ≡ (
            if is_request_code p.header.code
            then (c.sc.sender_seq_num + 1) % 2 ^ 64
            else c.sc.sender_seq_num))
  unfolding oscore_option_for context_update update_nonce_aad
  oscore_option_for-SameKeys p buf c = ground arith

  -- The nonce that a request is encrypted under.
  pub oscore_option_for-nonce :
      (p : CoapPacket) (buf : Bytes) (c c' : Context) (o : OscoreOption)
      → oscore_option_for ex p buf c ≡ (ok o, c')
      → is_request_code p.header.code ≡ true
      → nonce_of c.sc.sender_seq_num c.rrc.piv c.rrc.kid c.cc.common_iv c.rrc.nonce
        ≡ ok c'.rrc.nonce
  unfolding oscore_option_for context_update update_nonce_aad next_seq_num
  oscore_option_for-nonce p buf c c' o e r = ground arith

  -- Whatever the outcome, `coap2oscore` leaves the keys, the identifiers, the common and the
  -- recipient context alone. A packet takes the next sequence number, modulo 2^64, exactly when
  -- it is parsed, is no empty acknowledgement, is put into plaintext and is a request, also where
  -- a later step fails.
  pub coap2oscore-SameKeys :
      (pkt : CoapPacket) (buf : Bytes) (in_ : ByteArray) (size : ℕ) (c : Context)
      → SameKeys c (coap2oscore ex pkt buf in_ size c).1
        × ((coap2oscore ex pkt buf in_ size c).1.sc.sender_seq_num ≡ (
            if takes_seq_num (buf2coap in_ pkt)
            then (c.sc.sender_seq_num + 1) % 2 ^ 64
            else c.sc.sender_seq_num))
  unfolding coap2oscore protect_packet
  coap2oscore-SameKeys pkt buf in_ size c = coap2oscore_frame (buf2coap in_ pkt) refl
    where
      coap2oscore_frame :
          (r : Result CoapPacket)
          → buf2coap in_ pkt ≡ r
          → SameKeys c (coap2oscore ex pkt buf in_ size c).1
            × ((coap2oscore ex pkt buf in_ size c).1.sc.sender_seq_num ≡ (
                if takes_seq_num (buf2coap in_ pkt)
                then (c.sc.sender_seq_num + 1) % 2 ^ 64
                else c.sc.sender_seq_num))
      coap2oscore_frame (ok p) e = ground (arith, oscore_option_for-SameKeys p buf c)
      coap2oscore_frame (err x) e = ground arith
      coap2oscore_frame fault e = ground arith
