-- ===== src/Mbed/Point.antt =====
-- `mbedtls_ecp_decompress` of src/common/crypto_wrapper.c. The macro MBEDTLS_MPI_CHK leaves for the
-- cleanup with the first error.
use zephyr_uoscore_uedhoc.Memory.{Bytes}
use zephyr_uoscore_uedhoc.Prelude.{
  Option, [], if◌then◌else◌, length, ltb, none, not, some, ℕ, ◌*◌, ◌++◌, ◌+◌, ◌==◌, ◌||◌, ◌∷◌,
}
use zephyr_uoscore_uedhoc.Mbed.{Group, Psa}

infixl 5 ◌>>=◌
abbrev pub ◌>>=◌ : {A B : Type 0} → Option A → (A → Option B) → Option B
none >>= next = none
some a >>= next = next a

module _ {Store Mpi : Type 0} (psa : Psa Store Mpi) where
  -- The square of the coordinate and the coefficient `a`; without limbs it stands for -3.
  abbrev pub add_a : Option Mpi → Mpi → Option Mpi
  add_a none r = psa.mbedtls_mpi_sub_int r 3
  add_a (some a) r = psa.mbedtls_mpi_add_mpi r a

  -- The root of the parity that the first byte says.
  abbrev pub choose_root : ℕ → Mpi → Mpi → Option Mpi
  choose_root first p r =
      let odd = psa.mbedtls_mpi_get_bit r 0 in
      if (if first == 3 then not odd else odd) then psa.mbedtls_mpi_sub_mpi p r else some r

  -- The other coordinate, as bytes.
  unfoldable pub coordinate_y : Group Mpi → ℕ → Bytes → Option Bytes
  coordinate_y grp first x_bytes = do
    x ← psa.mbedtls_mpi_read_binary x_bytes
    square ← psa.mbedtls_mpi_mul_mpi x x
    with_a ← add_a grp.a square
    cubic ← psa.mbedtls_mpi_mul_mpi with_a x
    r ← psa.mbedtls_mpi_add_mpi cubic grp.b
    p_1 ← psa.mbedtls_mpi_add_int grp.p 1
    n ← psa.mbedtls_mpi_shift_r p_1 2
    root ← psa.mbedtls_mpi_exp_mod r n grp.p
    y ← choose_root first grp.p root
    psa.mbedtls_mpi_write_binary y (psa.mbedtls_mpi_size grp.p)

  -- The uncompressed point, into an array of `osize` bytes.
  unfoldable pub mbedtls_ecp_decompress : Group Mpi → Bytes → ℕ → Option Bytes
  mbedtls_ecp_decompress grp [] osize = none
  mbedtls_ecp_decompress grp (first ∷ x_bytes) osize =
      let plen = psa.mbedtls_mpi_size grp.p in
      let point = (do y_bytes ← coordinate_y grp first x_bytes; some (4 ∷ (x_bytes ++ y_bytes))) in
      if ltb osize (2 * plen + 1)
      then none
      else if length x_bytes == plen
      then (if first == 2 || first == 3 then point else none)
      else none

  -- The uncompressed point of the other party's key, where the curve can be loaded.
  unfoldable pub decompressed_pk : Bytes → Option Bytes
  decompressed_pk pk =
      if psa.mbedtls_pk_setup
      then (do grp ← psa.mbedtls_ecp_group_load; mbedtls_ecp_decompress grp pk 65)
      else none
