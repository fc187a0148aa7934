-- ===== src/OscoreOption.antt =====
-- The OSCORE option: `struct oscore_option` and `struct compressed_oscore_option` of
-- inc/oscore/oscore_coap.h, its generation in src/oscore/coap2oscore.c and its parser in
-- src/oscore/oscore2coap.c.
pub mod RoundTrip
pub mod Wire
use zephyr_uoscore_uedhoc.Prelude.{
  ℕ, Bool, List, [], bit_or, if◌then◌else◌, leb, replicate, sub32, sub8, u8, ◌%◌, ◌++◌, ◌+◌, ◌/◌,
  ◌==◌, ◌||◌, ◌∷◌, drop, length, set, take,
}
use zephyr_uoscore_uedhoc.Memory.{
  Bytes, ByteArray, ok, err, ◌>>=◌, ◌>>◌, read, Result, check_buffer_size, deref,
  oscore_inpkt_invalid_piv, fault,
}
use zephyr_uoscore_uedhoc.Options.{coap_option_oscore}
use zephyr_uoscore_uedhoc.Coap.{CoapOption}

abbrev pub oscore_opt_value_len : ℕ
oscore_opt_value_len = 22

-- `value` is the content of the buffer that the member of this name points to.
pub record OscoreOption : Type 0 where
  pub option_number : ℕ
  pub len : ℕ
  pub value : Bytes

-- The flag bits, and what the option holds.
pub record CompressedOption : Type 0 where
  pub h : ℕ
  pub k : ℕ
  pub n : ℕ
  pub piv : ByteArray
  pub kid_context : ByteArray
  pub kid : ByteArray

unfoldable pub get_oscore_opt_val_len : ByteArray → ByteArray → ByteArray → ℕ
get_oscore_opt_val_len piv kid kid_context =
    let l = u8 (piv.len + kid_context.len + kid.len) in
    let flagged = if l == 0 then l else u8 (l + 1) in
    if kid_context.len == 0 then flagged else u8 (flagged + 1)

-- `value[i] |= mask` and `value[i] = b`
unfoldable pub or_at : Bytes → ℕ → ℕ → Result Bytes
unfolding deref
or_at value i mask = do b ← deref (drop i value); ok (set value i (u8 (bit_or b mask)))

unfoldable pub put_at : Bytes → ℕ → ℕ → Result Bytes
unfolding deref
put_at value i b = do old ← deref (drop i value); ok (set value i b)

-- `_memcpy_s` to the byte at offset `t` of an option of `len` bytes.
unfoldable pub copy_at : Bytes → ℕ → ℕ → ByteArray → Result Bytes
unfolding check_buffer_size read
copy_at value t len source = do
  check_buffer_size (sub32 len t) source.len
  bytes ← read source.len source.ptr
  if leb (t + source.len) (length value)
      then ok (take t value ++ (bytes ++ drop (t + source.len) value))
      else fault

-- The option's content so far, and the offset of `temp_ptr`.
pub record Position : Type 0 where
  pub value : Bytes
  pub offset : ℕ

unfoldable pub put_piv : ℕ → ByteArray → Position → Result Position
unfolding or_at
put_piv len piv p = if piv.len == 0 then ok p else (do
  flagged ← or_at p.value 0 piv.len
  copied ← copy_at flagged (p.offset + 1) len piv
  ok (record { value = copied; offset = p.offset + 1 + piv.len }))

unfoldable pub put_kid_context : ℕ → ByteArray → Position → Result Position
unfolding or_at
put_kid_context len kid_context p = if kid_context.len == 0 then ok p else (do
  flagged ← or_at p.value 0 0x10
  counted ← put_at flagged p.offset (u8 kid_context.len)
  copied ← copy_at counted (p.offset + 1) len kid_context
  ok (record { value = copied; offset = p.offset + 1 + kid_context.len }))

unfoldable pub put_kid : ℕ → ByteArray → Position → Result Bytes
unfolding or_at
put_kid len kid p = do
  flagged ← or_at p.value 0 0x08
  if kid.len == 0 then ok flagged else copy_at flagged p.offset len kid

-- `memset` over the first `len` bytes of the buffer.
unfoldable pub clear : ℕ → Bytes → Result Bytes
clear len value = if leb len (length value) then ok (replicate len 0 ++ drop len value) else fault

unfoldable pub oscore_option_generate :
    ByteArray → ByteArray → ByteArray → OscoreOption → Result OscoreOption
unfolding clear put_piv put_kid_context put_kid
oscore_option_generate piv kid kid_context o =
    let fill = (do
      cleared ← clear o.len o.value
      p ← put_piv o.len piv (record { value = cleared; offset = 0 })
      q ← put_kid_context o.len kid_context p
      value ← put_kid o.len kid q
      ok (record { option_number = coap_option_oscore; len = o.len; value = value })) in
    if o.len == 0
    then ok (record { option_number = coap_option_oscore; len = 0; value = [] })
    else fill

-- The parser's pointer and `temp_kid_len`.
pub record KidCursor : Type 0 where
  pub ptr : Bytes
  pub kid_len : ℕ

-- No PIV leaves the length of the array as it was.
unfoldable pub get_piv : ℕ → ByteArray → KidCursor → Result (ByteArray × KidCursor)
get_piv n old c =
    if n == 0
    then ok (record old { ptr = [] }, c)
    else if n == 6 || n == 7
    then err oscore_inpkt_invalid_piv
    else ok
        (record { len = n; ptr = c.ptr }, record { ptr = drop n c.ptr; kid_len = sub8 c.kid_len n })

unfoldable pub get_kid_context : ℕ → KidCursor → Result (ByteArray × KidCursor)
unfolding deref
get_kid_context h c = if h == 0 then ok (record { len = 0; ptr = [] }, c) else (do
  l ← deref c.ptr
  ok (
    record { len = l; ptr = drop 1 c.ptr },
    record { ptr = drop l (drop 1 c.ptr); kid_len = sub8 c.kid_len (l + 1) },
  ))

unfoldable pub get_kid : ℕ → KidCursor → ByteArray
get_kid k c =
    if k == 0 then record { len = 0; ptr = [] } else record { len = c.kid_len; ptr = c.ptr }

-- An option of number COAP_OPTION_OSCORE.
unfoldable pub parse_value : CoapOption → CompressedOption → Result CompressedOption
unfolding deref get_piv get_kid_context get_kid
parse_value o out =
    let filled = (do
      b ← deref o.value
      p ← get_piv (b % 8) out.piv (record { ptr = drop 1 o.value; kid_len = sub8 o.len 1 })
      q ← get_kid_context (b / 16 % 2) p.1
      ok (record {
        h = b / 16 % 2;
        k = b / 8 % 2;
        n = b % 8;
        piv = p.0;
        kid_context = q.0;
        kid = get_kid (b / 8 % 2) q.1;
      })) in
    if o.len == 0 then ok (record out { h = 0; k = 0; n = 0 }) else filled

-- The loop over the options; the flag tells whether one was an OSCORE option.
unfoldable pub oscore_option_parser :
    List CoapOption → CompressedOption → Bool → Result (CompressedOption × Bool)
unfolding parse_value
oscore_option_parser [] out oscore_pkt = ok (out, oscore_pkt)
oscore_option_parser (o ∷ os) out oscore_pkt = do
  next ← (if o.option_number == coap_option_oscore then parse_value o out else ok out)
  oscore_option_parser os next (oscore_pkt || o.option_number == coap_option_oscore)
