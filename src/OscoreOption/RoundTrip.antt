-- ===== src/OscoreOption/RoundTrip.antt =====
-- The OSCORE option as the recipient parses it, and the way from sender to recipient.
use zephyr_uoscore_uedhoc.Prelude.{
  ◌||◌, ℕ, suc, [], ◌∷◌, ◌++◌, ◌+◌, ◌-◌, ◌*◌, ◌/◌, ◌%◌, ◌≡◌, ◌≤◌, ◌<◌, arith, length, drop, sub8,
  if◌then◌else◌, ◌==◌, false, append_assoc, drop-append,
}
use zephyr_uoscore_uedhoc.Memory.{Bytes, ok, deref}
use zephyr_uoscore_uedhoc.Context.NonceLaws.{held}
use zephyr_uoscore_uedhoc.Options.{coap_option_oscore}
use zephyr_uoscore_uedhoc.OscoreOption.{
  CompressedOption, oscore_option_generate, get_piv, get_kid_context, get_kid, parse_value,
  get_oscore_opt_val_len,
}
use zephyr_uoscore_uedhoc.OscoreOption.Wire.{
  wire, context_bytes, has_context, has_context_bounds, length-wire, oscore_option_generate-wire,
}

-- What the recipient makes of the option, with pointers into its buffer.
abbrev pub received : Bytes → Bytes → Bytes → Bytes → CompressedOption
received piv ctx kid rest = record {
  h = has_context ctx;
  k = 1;
  n = length piv;
  piv = record { len = length piv; ptr = piv ++ (context_bytes ctx ++ (kid ++ rest)) };
  kid_context = record {
    len = length ctx;
    ptr = if has_context ctx == 0 then [] else ctx ++ (kid ++ rest);
  };
  kid = held kid rest;
}

pub get_kid_context-wire :
    (ctx tail : Bytes) (len : ℕ)
    → length ctx ≤ 8
    → length (context_bytes ctx) ≤ len
    → len < 256
    → get_kid_context (has_context ctx) (record { ptr = context_bytes ctx ++ tail; kid_len = len })
      ≡ ok (
        record { len = length ctx; ptr = if has_context ctx == 0 then [] else ctx ++ tail },
        record { ptr = tail; kid_len = len - length (context_bytes ctx) },
      )
unfolding get_kid_context deref
get_kid_context-wire [] tail len h k lt = ground arith
get_kid_context-wire (c ∷ ctx) tail len h k lt =
    let behind : drop (length ctx) (ctx ++ tail) ≡ tail = drop-append ctx tail in
    let left : sub8 len (suc (length ctx) + 1) ≡ len - suc (suc (length ctx)) = omega arith in
    rw (behind, left)

-- What is generated is parsed back, whatever stands behind it.
pub parse_value-wire :
    (piv ctx kid rest : Bytes) (delta : ℕ) (out : CompressedOption)
    → (0 < length piv) × (length piv ≤ 5)
    → length ctx ≤ 8
    → length kid ≤ 7
    → parse_value
        (record {
          delta = delta;
          len = length (wire piv ctx kid);
          value = wire piv ctx kid ++ rest;
          option_number = coap_option_oscore;
        })
        out
      ≡ ok (received piv ctx kid rest)
unfolding parse_value get_piv get_kid deref
parse_value-wire piv ctx kid rest delta out (pos, le) h k =
    let m = length (piv ++ (context_bytes ctx ++ kid)) in
    let total : suc m ≡ 1 + length piv + length (context_bytes ctx) + length kid =
      length-wire piv ctx kid in
    let (cb, hc) = has_context_bounds ctx in
    let flags = length piv + 16 * has_context ctx + 8 in
    let n_bits : flags % 8 ≡ length piv = omega arith in
    let h_bit : flags / 16 % 2 ≡ has_context ctx = omega arith in
    let k_bit : flags / 8 % 2 ≡ 1 = omega arith in
    let some_len : (suc m == 0) ≡ false = ground arith in
    let some_piv : (length piv == 0) ≡ false = ground arith in
    let valid_piv : (length piv == 6 || length piv == 7) ≡ false = ground arith in
    let after_piv : sub8 (sub8 (suc m) 1) (length piv) ≡ length (context_bytes ctx) + length kid =
      omega arith in
    let left : length (context_bytes ctx) + length kid - length (context_bytes ctx) ≡ length kid =
      omega arith in
    rw (
      some_len,
      n_bits,
      h_bit,
      k_bit,
      some_piv,
      valid_piv,
      append_assoc piv (context_bytes ctx ++ kid) rest,
      append_assoc (context_bytes ctx) kid rest,
      drop-append piv (context_bytes ctx ++ (kid ++ rest)),
      after_piv,
      get_kid_context-wire ctx (kid ++ rest) (length (context_bytes ctx) + length kid) h
          (omega arith) (omega arith),
      left,
    )

pub get_oscore_opt_val_len-wire :
    (piv ctx kid r r' r'' : Bytes)
    → (0 < length piv) × (length piv ≤ 5)
    → length ctx ≤ 8
    → length kid ≤ 7
    → get_oscore_opt_val_len (held piv r) (held kid r') (held ctx r'') ≡ length (wire piv ctx kid)
unfolding get_oscore_opt_val_len
get_oscore_opt_val_len-wire piv [] kid r r' r'' (pos, le) h k =
    ground (arith, length-wire piv [] kid)
get_oscore_opt_val_len-wire piv (c ∷ ctx) kid r r' r'' (pos, le) h k =
    ground (arith, length-wire piv (c ∷ ctx) kid)

-- The length that the sender computes is that of flags, PIV, KID context behind its length, and
-- KID; these are what it generates, in a buffer that has room; and the recipient parses them back,
-- whatever stands behind them. The PIV has 1 to 5 bytes, the KID context and the KID at most 8
-- and 7.
pub parse_value-oscore_option_generate :
    (piv ctx kid r r' r'' buf rest : Bytes) (number delta : ℕ) (out : CompressedOption)
    → (0 < length piv) × (length piv ≤ 5)
    → length ctx ≤ 8
    → length kid ≤ 7
    → length (wire piv ctx kid) ≤ length buf
    → (get_oscore_opt_val_len (held piv r) (held kid r') (held ctx r'') ≡ length (wire piv ctx kid))
      × (oscore_option_generate
            (held piv r)
            (held kid r')
            (held ctx r'')
            (record { option_number = number; len = length (wire piv ctx kid); value = buf })
          ≡ ok (record {
            option_number = coap_option_oscore;
            len = length (wire piv ctx kid);
            value = wire piv ctx kid ++ drop (length (wire piv ctx kid)) buf;
          }))
      × (parse_value
            (record {
              delta = delta;
              len = length (wire piv ctx kid);
              value = wire piv ctx kid ++ rest;
              option_number = coap_option_oscore;
            })
            out
          ≡ ok (received piv ctx kid rest))
parse_value-oscore_option_generate piv ctx kid r r' r'' buf rest number delta out p h k fits = (
  get_oscore_opt_val_len-wire piv ctx kid r r' r'' p h k,
  oscore_option_generate-wire piv ctx kid r r' r'' buf number p h k fits,
  parse_value-wire piv ctx kid rest delta out p h k,
)
