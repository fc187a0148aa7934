-- ===== src/Prelude/Words.antt =====
-- Unsigned machine integers as native numbers with the wrap-around written out, and the bit
-- operations of the packet headers.
use Prim.Native.Nat.{ℕ, zero, suc, ◌+◌, ◌-◌, ◌*◌, ◌/◌, ◌%◌, ◌<◌, bit_or, bit_xor}
use mathlib.Core.Path.{◌≡◌, refl, sym, ap, ◌∙◌}
use mathlib.Core.Bool.{Bool, true, ◌&&◌}
use native.Mathlib.Omega.{arith}
use zephyr_uoscore_uedhoc.Prelude.Tests.{◌==◌, ==_iff}

-- The casts (uint8_t), (uint16_t) and (uint32_t) of a value that is not negative.
abbrev pub u8 : ℕ → ℕ
u8 n = n % 256

abbrev pub u16 : ℕ → ℕ
u16 n = n % 65536

abbrev pub u32 : ℕ → ℕ
u32 n = n % 4294967296

-- Subtraction of a smaller type's value in uint8_t, uint16_t and uint32_t.
abbrev pub sub8 : ℕ → ℕ → ℕ
sub8 a b = (a + 65536 - b) % 256

abbrev pub sub16 : ℕ → ℕ → ℕ
sub16 a b = (a + 65536 - b) % 65536

abbrev pub sub32 : ℕ → ℕ → ℕ
sub32 a b = (a + 4294967296 - b) % 4294967296

-- Whether a test succeeds on every number below a bound, by evaluation.
pub all_below : (ℕ → Bool) → ℕ → Bool
all_below test zero = true
all_below test (suc bound) = all_below test bound && test bound

pub all_below_sound :
    (test : ℕ → Bool) (bound n : ℕ) → n < bound → all_below test bound ≡ true → test n ≡ true
unfolding all_below
all_below_sound test zero n lt holds = absurd (omega arith)
all_below_sound test (suc bound) n lt holds = ground (arith, all_below_sound test bound n)

nibbles_table : all_below (λ b. bit_or (b / 16 * 16) (b % 16) == b) 256 ≡ true
unfolding all_below
nibbles_table = refl

nibbles_byte : (b : ℕ) → b < 256 → bit_or (b / 16 * 16) (b % 16) ≡ b
nibbles_byte b h = (==_iff _ b).0 (all_below_sound _ 256 b h nibbles_table)

-- Two nibbles joined by `|` are added.
pub bit_or_nibbles : (hi lo : ℕ) → hi < 16 → lo < 16 → bit_or (hi * 16) lo ≡ hi * 16 + lo
bit_or_nibbles hi lo h k =
    let a : (hi * 16 + lo) / 16 ≡ hi = omega arith in
    let b : (hi * 16 + lo) % 16 ≡ lo = omega arith in
    rw (a, b) at (nibbles_byte (hi * 16 + lo) (omega arith))

header_table :
    all_below (λ b. bit_or (bit_or (b / 64 * 64) (b / 16 % 4 * 16)) (b % 16) == b) 256 ≡ true
unfolding all_below
header_table = refl

header_bits_byte : (b : ℕ) → b < 256 → bit_or (bit_or (b / 64 * 64) (b / 16 % 4 * 16)) (b % 16) ≡ b
header_bits_byte b h = (==_iff _ b).0 (all_below_sound _ 256 b h header_table)

-- The fields of two, two and four bits joined by `|` are added.
pub bit_or_header :
    (a b c : ℕ) → a < 4 → b < 4 → c < 16 → bit_or (bit_or (a * 64) (b * 16)) c ≡ a * 64 + b * 16 + c
bit_or_header a b c h k l =
    let x : (a * 64 + b * 16 + c) / 64 ≡ a = omega arith in
    let y : (a * 64 + b * 16 + c) / 16 % 4 ≡ b = omega arith in
    let z : (a * 64 + b * 16 + c) % 16 ≡ c = omega arith in
    rw (x, y, z) at (header_bits_byte (a * 64 + b * 16 + c) (omega arith))

xor_table : all_below (λ x. all_below (λ y. bit_xor (bit_xor x y) y == x) 256) 256 ≡ true
unfolding all_below
xor_table = refl

pub xor_twice : (x y : ℕ) → x < 256 → y < 256 → bit_xor (bit_xor x y) y ≡ x
xor_twice x y h k =
    let row =
      all_below_sound (λ (a : ℕ). all_below (λ b. bit_xor (bit_xor a b) b == a) 256) 256 x h
        xor_table in
    (==_iff _ x).0 (all_below_sound (λ (b : ℕ). bit_xor (bit_xor x b) b == x) 256 y k row)

-- A byte is determined by its exclusive or with a known byte.
pub bit_xor_cancel :
    (x x' y : ℕ) → x < 256 → x' < 256 → y < 256 → bit_xor x y ≡ bit_xor x' y → x ≡ x'
bit_xor_cancel x x' y h h' k e =
    sym (xor_twice x y h k) ∙ ap (λ z. bit_xor z y) e ∙ xor_twice x' y h' k

-- The flags of the OSCORE option, joined by `|` one by one, are added.
piv_flag_table : all_below (λ n. bit_or 0 n == n) 8 ≡ true
unfolding all_below
piv_flag_table = refl

pub piv_flag : (n : ℕ) → n < 8 → bit_or 0 n ≡ n
piv_flag n h = (==_iff _ n).0 (all_below_sound _ 8 n h piv_flag_table)

context_flag_table : all_below (λ n. bit_or n 0x10 == n + 16) 8 ≡ true
unfolding all_below
context_flag_table = refl

pub context_flag : (n : ℕ) → n < 8 → bit_or n 0x10 ≡ n + 16
context_flag n h = (==_iff _ (n + 16)).0 (all_below_sound _ 8 n h context_flag_table)

kid_flag_table :
    all_below (λ n. bit_or (n / 8 * 16 + n % 8) 0x08 == n / 8 * 16 + n % 8 + 8) 16 ≡ true
unfolding all_below
kid_flag_table = refl

pub kid_flag : (n c : ℕ) → n < 8 → c < 2 → bit_or (n + 16 * c) 0x08 ≡ n + 16 * c + 8
kid_flag n c h k =
    let e : (n + 8 * c) / 8 * 16 + (n + 8 * c) % 8 ≡ n + 16 * c = omega arith in
    rw e at ((==_iff _ _).0 (all_below_sound _ 16 (n + 8 * c) (omega arith) kid_flag_table))
