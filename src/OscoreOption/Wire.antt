-- ===== src/OscoreOption/Wire.antt =====
-- The bytes of the OSCORE option of a request, as the sender generates them.
use zephyr_uoscore_uedhoc.Prelude.{
  ◌∙◌, drop_all, ℕ, zero, suc, [], ◌∷◌, ◌++◌, ◌+◌, ◌-◌, ◌*◌, ◌≡◌, ◌≤◌, ◌<◌, refl, arith, length,
  drop, set, replicate, bit_or, u8, sub32, ◌==◌, leb, ltb, true, false, piv_flag, context_flag,
  kid_flag, append_assoc, length-append, drop-append, take-append, length-replicate, length-drop,
}
use zephyr_uoscore_uedhoc.Memory.{Bytes, ok, check_buffer_size}
use zephyr_uoscore_uedhoc.Memory.Laws.{read_prefix, drop_prefix}
use zephyr_uoscore_uedhoc.Context.NonceLaws.{held}
use zephyr_uoscore_uedhoc.Options.{coap_option_oscore}
use zephyr_uoscore_uedhoc.OscoreOption.{
  put_at, copy_at, put_piv, put_kid_context, put_kid, clear, oscore_option_generate,
}

-- The KID context behind its length.
abbrev pub context_bytes : Bytes → Bytes
context_bytes [] = []
context_bytes (c ∷ cs) = suc (length cs) ∷ c ∷ cs

abbrev pub has_context : Bytes → ℕ
has_context [] = 0
has_context (c ∷ cs) = 1

-- The option: flags, PIV, KID context, KID.
abbrev pub wire : Bytes → Bytes → Bytes → Bytes
wire piv kid_context kid =
    (length piv + 16 * has_context kid_context + 8) ∷ (piv ++ (context_bytes kid_context ++ kid))

drop-append_more : (w z : Bytes) (n : ℕ) → drop (length w + n) (w ++ z) ≡ drop n z
drop-append_more [] z n = ground arith
drop-append_more (x ∷ w) z n =
    let e : suc (length w) + n ≡ suc (length w + n) = omega arith in rw e (drop-append_more w z n)

set-append : (w : Bytes) (y b : ℕ) (z : Bytes) → set (w ++ y ∷ z) (length w) b ≡ w ++ b ∷ z
set-append [] y b z = refl
set-append (x ∷ w) y b z = rw (set-append w y b z)

copy_at-append :
    (w z bs r : Bytes) (t len : ℕ)
    → t ≡ length w
    → length bs ≤ length z
    → t + length bs ≤ len
    → len < 4294967296
    → copy_at (w ++ z) t len (held bs r) ≡ ok (w ++ (bs ++ drop (length bs) z))
unfolding copy_at check_buffer_size
copy_at-append w z bs r t len e fits room lt =
    let small : ltb (sub32 len t) (length bs) ≡ false = ground arith in
    let inside : leb (t + length bs) (length (w ++ z)) ≡ true = ground (arith, length-append w z) in
    rw (small, read_prefix bs r, inside, e) (rw (take-append w z, drop-append_more w z (length bs)))

put_piv-wire :
    (piv r z : Bytes) (len : ℕ)
    → (0 < length piv) × (length piv ≤ 5)
    → length piv ≤ length z
    → 1 + length piv ≤ len
    → len < 256
    → put_piv len (held piv r) (record { value = 0 ∷ z; offset = 0 })
      ≡ ok (record { value = length piv ∷ (piv ++ drop (length piv) z); offset = 1 + length piv })
unfolding put_piv
put_piv-wire piv r z len (pos, le) fits room lt =
    let some_piv : (length piv == 0) ≡ false = ground arith in
    let flag : u8 (bit_or 0 (length piv)) ≡ length piv =
      omega (arith, piv_flag (length piv) (omega arith)) in
    rw (some_piv, flag, copy_at-append (length piv ∷ []) z piv r 1 len refl fits room (omega arith))

put_kid_context-wire :
    (ctx r w z : Bytes) (f t len : ℕ)
    → t ≡ suc (length w)
    → f < 8
    → length ctx ≤ 8
    → length (context_bytes ctx) ≤ length z
    → t + length (context_bytes ctx) ≤ len
    → len < 256
    → put_kid_context len (held ctx r) (record { value = f ∷ (w ++ z); offset = t })
      ≡ ok (record {
        value =
            (f + 16 * has_context ctx)
            ∷ (w ++ (context_bytes ctx ++ drop (length (context_bytes ctx)) z));
        offset = t + length (context_bytes ctx);
      })
unfolding put_kid_context put_at
put_kid_context-wire [] r w z f t len e h k fits room lt = ground arith
put_kid_context-wire (c ∷ ctx) r w [] f t len e h k fits room lt = absurd (omega arith)
put_kid_context-wire (c ∷ ctx) r w (y ∷ z) f t len e h k fits room lt =
    let flag : u8 (bit_or f 0x10) ≡ f + 16 = omega (arith, context_flag f h) in
    let l = suc (length ctx) in
    let byte : u8 l ≡ l = omega arith in
    let head = (f + 16) ∷ (w ++ l ∷ []) in
    let size : length head ≡ t + 1 = omega (arith, length-append w (l ∷ [])) in
    let parts : (f + 16) ∷ (w ++ l ∷ z) ≡ head ++ z = rw (append_assoc w (l ∷ []) z) in
    let copied : copy_at (head ++ z) (suc (length w) + 1) len (held (c ∷ ctx) r)
        ≡ ok (head ++ ((c ∷ ctx) ++ drop (length (c ∷ ctx)) z)) =
      copy_at-append head z (c ∷ ctx) r (suc (length w) + 1) len (omega arith) (omega arith)
        (omega arith) (omega arith) in
    let values : head ++ ((c ∷ ctx) ++ drop (length (c ∷ ctx)) z)
        ≡ (f + 16) ∷ (w ++ (context_bytes (c ∷ ctx) ++ drop (length (c ∷ ctx)) z)) =
      rw (append_assoc w (l ∷ []) ((c ∷ ctx) ++ drop (length (c ∷ ctx)) z)) in
    let offsets : suc (length w) + 1 + suc (length ctx) ≡ suc (length w) + suc (suc (length ctx)) =
      omega arith in
    let given : (suc (length ctx) == 0) ≡ false = ground arith in
    rw (
      e,
      given,
      drop-append w (y ∷ z),
      flag,
      byte,
      set-append w y l z,
      parts,
      copied,
      values,
      offsets,
    )

put_kid-wire :
    (kid r w z : Bytes) (f n c t len : ℕ)
    → t ≡ suc (length w)
    → f ≡ n + 16 * c
    → (n < 8) × (c < 2)
    → length kid ≤ length z
    → t + length kid ≤ len
    → len < 256
    → put_kid len (held kid r) (record { value = f ∷ (w ++ z); offset = t })
      ≡ ok ((f + 8) ∷ (w ++ (kid ++ drop (length kid) z)))
unfolding put_kid
put_kid-wire [] r w z f n c t len e g (h, k) fits room lt =
    let flag : u8 (bit_or f 0x08) ≡ f + 8 = rw g (omega (arith, kid_flag n c h k)) in rw flag
put_kid-wire (i ∷ kid) r w z f n c t len e g (h, k) fits room lt =
    let flag : u8 (bit_or f 0x08) ≡ f + 8 = rw g (omega (arith, kid_flag n c h k)) in
    let given : (suc (length kid) == 0) ≡ false = ground arith in
    rw (flag, given, copy_at-append ((f + 8) ∷ w) z (i ∷ kid) r t len e fits room (omega arith))

pub has_context_bounds :
    (ctx : Bytes)
    → (length (context_bytes ctx) ≡ length ctx + has_context ctx) × (has_context ctx < 2)
has_context_bounds [] = (refl, omega arith)
has_context_bounds (c ∷ ctx) = (omega arith, omega arith)

drop-drop : (a b : ℕ) (z : Bytes) → drop a (drop b z) ≡ drop (b + a) z
drop-drop a zero z = ground arith
drop-drop a (suc b) [] =
    let none : Bytes = [] in
    rw (drop_all a none (omega arith), drop_all (suc b + a) none (omega arith))
drop-drop a (suc b) (x ∷ z) =
    let e : suc b + a ≡ suc (b + a) = omega arith in rw e (drop-drop a b z)

pub length-wire :
    (piv ctx kid : Bytes)
    → length (wire piv ctx kid) ≡ 1 + length piv + length (context_bytes ctx) + length kid
length-wire piv ctx kid =
    omega
      (arith, length-append piv (context_bytes ctx ++ kid), length-append (context_bytes ctx) kid)

-- The option that is generated, for a PIV of 1 to 5 bytes and a KID context and a KID of at most
-- 8 and 7, in a buffer that has room.
pub oscore_option_generate-wire :
    (piv ctx kid r r' r'' buf : Bytes) (number : ℕ)
    → (0 < length piv) × (length piv ≤ 5)
    → length ctx ≤ 8
    → length kid ≤ 7
    → length (wire piv ctx kid) ≤ length buf
    → oscore_option_generate
        (held piv r)
        (held kid r')
        (held ctx r'')
        (record { option_number = number; len = length (wire piv ctx kid); value = buf })
      ≡ ok (record {
        option_number = coap_option_oscore;
        len = length (wire piv ctx kid);
        value = wire piv ctx kid ++ drop (length (wire piv ctx kid)) buf;
      })
unfolding oscore_option_generate clear
oscore_option_generate-wire piv ctx kid r r' r'' buf number (pos, le) h k fits =
    let m = length (piv ++ (context_bytes ctx ++ kid)) in
    let total : suc m ≡ 1 + length piv + length (context_bytes ctx) + length kid =
      length-wire piv ctx kid in
    let (cb, hc) = has_context_bounds ctx in
    let rest = drop (suc m) buf in
    let z = replicate m 0 ++ rest in
    let z_size : length z ≡ m + length rest =
      omega (arith, length-append (replicate m 0) rest, length-replicate {0} m zero) in
    let y = drop (length piv) z in
    let y_size : length y ≡ length z - length piv = length-drop (length piv) z in
    let x = drop (length (context_bytes ctx)) y in
    let x_size : length x ≡ length y - length (context_bytes ctx) =
      length-drop (length (context_bytes ctx)) y in
    let some_len : (suc m == 0) ≡ false = ground arith in
    let room : leb (suc m) (length buf) ≡ true = ground arith in
    let behind : drop (length kid) x ≡ rest =
      drop-drop (length kid) (length (context_bytes ctx)) y
      ∙ drop-drop (length (context_bytes ctx) + length kid) (length piv) z
      ∙ drop_prefix (length piv + (length (context_bytes ctx) + length kid)) (replicate m 0) rest
          (omega (arith, length-replicate {0} m zero)) in
    rw (
      some_len,
      room,
      put_piv-wire piv r z (suc m) (pos, le) (omega arith) (omega arith) (omega arith),
      put_kid_context-wire ctx r'' piv y (length piv) (1 + length piv) (suc m) (omega arith)
          (omega arith) h (omega arith) (omega arith) (omega arith),
      ← append_assoc piv (context_bytes ctx) x,
      put_kid-wire kid r' (piv ++ context_bytes ctx) x (length piv + 16 * has_context ctx)
          (length piv) (has_context ctx) (1 + length piv + length (context_bytes ctx)) (suc m)
          (omega (arith, length-append piv (context_bytes ctx))) refl (omega arith, hc)
          (omega arith) (omega arith) (omega arith),
      behind,
      append_assoc piv (context_bytes ctx) (kid ++ rest),
      append_assoc piv (context_bytes ctx ++ kid) rest,
      append_assoc (context_bytes ctx) kid rest,
    )
