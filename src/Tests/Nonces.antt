-- ===== src/Tests/Nonces.antt =====
-- The theorems on PIVs and nonces at concrete inputs.
use zephyr_uoscore_uedhoc.Context.PivLaws.{sender_seq_num2piv-piv_array}
use zephyr_uoscore_uedhoc.Context.NonceReuse.{nonce_of, nonce_of-shift, nonce_of_cancel}
use zephyr_uoscore_uedhoc.Prelude.{[], arith, refl, replicate, ◌∷◌, ◌≡◌, ℕ}
use zephyr_uoscore_uedhoc.Memory.{ByteArray, Bytes, of_bytes, ok, check_buffer_size, memcpy_s, read}
use zephyr_uoscore_uedhoc.Context.Piv.{little_endian, sender_seq_num2piv, piv_loop}
use zephyr_uoscore_uedhoc.Context.NonceLaws.{AreBytes}
use zephyr_uoscore_uedhoc.Context.Nonce.{create_nonce, left_pad, xor_bytes}

abbrev sender : Bytes
sender = 1 ∷ 2 ∷ []

abbrev common : Bytes
common = replicate 13 0xA5

abbrev buffer : ByteArray
buffer = record { len = 5; ptr = replicate 5 0 }

abbrev nonce : ByteArray
nonce = record { len = 13; ptr = replicate 13 0 }

common-AreBytes : AreBytes common
common-AreBytes = ground arith

sender-AreBytes : AreBytes sender
sender-AreBytes = ground arith

sender_seq_num2piv-piv_array_example :
    sender_seq_num2piv 258 buffer ≡ ok (record { len = 2; ptr = 2 ∷ 1 ∷ 0 ∷ 0 ∷ 0 ∷ [] })
unfolding little_endian
sender_seq_num2piv-piv_array_example = sender_seq_num2piv-piv_array 258 buffer (omega arith)

nonce_of-shift_example :
    nonce_of 256 buffer (of_bytes sender) (of_bytes common) nonce
    ≡ nonce_of 1 buffer (of_bytes sender) (of_bytes common) nonce
nonce_of-shift_example =
    nonce_of-shift 1 sender [] buffer (of_bytes common) nonce (omega arith) (omega arith)
      (omega arith)

abbrev number : ℕ
number = 258

abbrev dirty_buffer : ByteArray
dirty_buffer = record { len = 1; ptr = replicate 5 9 }

-- The same number and identifier, in other buffers.
nonce_of_cancel_example : (number ≡ number) × (sender ≡ sender)
unfolding create_nonce left_pad xor_bytes sender_seq_num2piv piv_loop memcpy_s check_buffer_size
    read little_endian
nonce_of_cancel_example =
    nonce_of_cancel number number sender sender [] (7 ∷ []) common buffer dirty_buffer nonce
      (omega arith) (omega arith) (omega arith) (omega arith) (omega arith, sender-AreBytes)
      (omega arith, sender-AreBytes) (refl, common-AreBytes) refl

abbrev piv_one : Bytes
piv_one = 1 ∷ []

abbrev piv_long : Bytes
piv_long = 0 ∷ 1 ∷ []

-- The PIVs of 1 and of 256.
