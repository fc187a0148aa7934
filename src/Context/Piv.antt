-- ===== src/Context/Piv.antt =====
-- `sender_seq_num2piv` of src/oscore/security_context.c, on a little-endian machine, where the
-- byte `*(p + i)` of the number has the weight 256 ^ i.
use zephyr_uoscore_uedhoc.Prelude.{ℕ, zero, suc, ◌/◌, ◌%◌, ◌^◌, [], ◌∷◌, ltb, if◌then◌else◌}
use zephyr_uoscore_uedhoc.Memory.{Bytes, ByteArray, Result, ok, ◌>>=◌, memcpy_s}
use zephyr_uoscore_uedhoc.Coap.{max_piv_len}

-- The lowest `n` bytes of a number, as they lie in memory.
unfoldable pub little_endian : ℕ → ℕ → Bytes
little_endian zero x = []
little_endian (suc n) x = (x % 256) ∷ little_endian n (x / 256)

-- The loop from byte `n - 1` down; the buffer of `piv` has MAX_PIV_LEN bytes.
unfoldable pub piv_loop : ℕ → ℕ → ByteArray → Result ByteArray
piv_loop zero ssn piv = do
  ptr ← memcpy_s piv.ptr max_piv_len (0 ∷ []) 1
  ok (record { len = 1; ptr = ptr })
piv_loop (suc n) ssn piv =
    let rest = piv_loop n ssn piv in
    let found = (do
      ptr ← memcpy_s piv.ptr max_piv_len (little_endian 8 ssn) (suc n)
      ok (record { len = suc n; ptr = ptr })) in
    if ltb 0 (ssn / 256 ^ n % 256) then found else rest

unfoldable pub sender_seq_num2piv : ℕ → ByteArray → Result ByteArray
unfolding piv_loop
sender_seq_num2piv ssn piv = piv_loop 8 ssn piv
