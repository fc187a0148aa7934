-- ===== src/Context/PivLaws.antt =====
-- The PIV of a sequence number (src/oscore/security_context.c).
use zephyr_uoscore_uedhoc.Prelude.{
  ℕ, arith, drop, if◌then◌else◌, ltb, ◌++◌, ◌<◌, ◌^◌, ◌≡◌, ◌≤◌, [], ap, length, refl, suc, zero,
  ◌*◌, ◌+◌, ◌/◌, ◌∷◌, Bool-cases, inl, inr, ltb→le, ltb→lt,
}
use zephyr_uoscore_uedhoc.Memory.{ByteArray, Bytes, buffer_to_small, err, memcpy_s, ok}
use zephyr_uoscore_uedhoc.Context.Piv.{little_endian, sender_seq_num2piv}

-- The number of bytes of a sequence number below 2^40; 0 takes one.
abbrev pub piv_size : ℕ → ℕ
piv_size ssn =
    if ltb ssn 256
    then 1
    else if ltb ssn 65536
    then 2
    else if ltb ssn 16777216
    then 3
    else if ltb ssn 4294967296
    then 4
    else 5

abbrev pub piv_array : ℕ → Bytes → ByteArray
piv_array ssn old = record {
  len = piv_size ssn;
  ptr = little_endian (piv_size ssn) ssn ++ drop (piv_size ssn) old;
}

piv_fits :
    (ssn : ℕ) (piv : ByteArray)
    → ssn < 2 ^ 40
    → sender_seq_num2piv ssn piv ≡ ok (piv_array ssn piv.ptr)
unfolding sender_seq_num2piv memcpy_s little_endian
piv_fits ssn piv h = ground arith

piv_too_long :
    (ssn : ℕ) (piv : ByteArray)
    → 2 ^ 40 ≤ ssn
    → ssn < 2 ^ 64
    → sender_seq_num2piv ssn piv ≡ err buffer_to_small
unfolding sender_seq_num2piv memcpy_s little_endian
piv_too_long ssn piv h k = ground arith

-- A sequence number below 2^40 becomes its bytes, lowest first, as many as it takes; one from
-- there on is refused.
pub sender_seq_num2piv-piv_array :
    (ssn : ℕ) (piv : ByteArray)
    → ssn < 2 ^ 64
    → sender_seq_num2piv ssn piv
      ≡ (if ltb ssn (2 ^ 40) then ok (piv_array ssn piv.ptr) else err buffer_to_small)
sender_seq_num2piv-piv_array ssn piv h = elim (Bool-cases (ltb ssn (2 ^ 40))) [
  | inl below ↦ rw below (piv_fits ssn piv (ltb→lt _ _ below))
  | inr above ↦ rw above (piv_too_long ssn piv (ltb→le _ _ above) h)
]

pub piv_size_bounds : (ssn : ℕ) → (1 ≤ piv_size ssn) × (piv_size ssn ≤ 5)
piv_size_bounds ssn = ground arith

pub length-little_endian : (n x : ℕ) → length (little_endian n x) ≡ n
unfolding little_endian
length-little_endian zero x = refl
length-little_endian (suc n) x = ap suc (length-little_endian n (x / 256))

-- The number that bytes with the lowest first stand for.
abbrev pub le_value : Bytes → ℕ
le_value [] = 0
le_value (b ∷ bs) = b + 256 * le_value bs

pub le_value-piv : (ssn : ℕ) → ssn < 2 ^ 40 → le_value (little_endian (piv_size ssn) ssn) ≡ ssn
unfolding little_endian
le_value-piv ssn h = ground arith
