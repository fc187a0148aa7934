-- ===== src/Edhoc/Strings.antt =====
-- The strings and identifiers that a coder reads back, and the messages made of them
-- (src/edhoc/signature_or_mac_msg.c, src/edhoc/responder.c, src/edhoc/initiator.c).
use mathlib.Core.Path.{subst}
use zephyr_uoscore_uedhoc.Prelude.{
  ℕ, ◌+◌, ◌≡◌, ◌<◌, refl, sym, arith, ◌++◌, length, some, ◌∙◌, All, take-append, [], ap, drop,
  sub32, u32, ◌∷◌, some_inj, append_assoc, drop-append, length-append, map, take, u8,
}
use zephyr_uoscore_uedhoc.Memory.{
  Bytes, ByteArray, ok, of_bytes, copy_s, store, check_buffer_size, read,
}
use zephyr_uoscore_uedhoc.Edhoc.Suites.{Cx, c_x_bstr, c_x_int, c_x_set_bstr}
use zephyr_uoscore_uedhoc.Edhoc.Initiator.{
  ParsedMsg2, cx_of_string, cx_string, msg2_parse, c_r_default_size,
}
use zephyr_uoscore_uedhoc.Edhoc.Authentication.{decode_byte_string, encode_byte_string}
use zephyr_uoscore_uedhoc.Edhoc.Coders.{CxString, EdhocExternal, M2, id_bstr, id_int}
use zephyr_uoscore_uedhoc.Edhoc.Responder.{msg2_encode}
use zephyr_uoscore_uedhoc.Memory.Laws.{read_ok, bind_ok, copy_s_ok, ok_inj, store_ok}
use zephyr_uoscore_uedhoc.Crypto.Wrapper.{expect}
use zephyr_uoscore_uedhoc.Edhoc.Ciphertext.{ciphertext_default_size}
use zephyr_uoscore_uedhoc.Crypto.Expand.{expect-some}

-- A decoded string that holds `bytes`, with what stands behind them in its buffer
abbrev pub Reads : ByteArray → Bytes → Type 0
Reads a bytes = (rest : Bytes) × (a ≡ (record { len = length bytes; ptr = bytes ++ rest }))

-- A decoded identifier that is `c`
abbrev pub CxReads : CxString → Cx → Type 0
CxReads (id_int m) (c_x_int n) = m ≡ n
CxReads (id_bstr a) (c_x_bstr b) = Reads a b
CxReads _ _ = ⊥

-- The copy of a string that reads as `bytes`
pub copy_s-Reads :
    (n : ℕ) (a : ByteArray) (bytes b : Bytes)
    → Reads a bytes
    → copy_s n a.ptr a.len ≡ ok b
    → b ≡ bytes
copy_s-Reads n a bytes b r e =
    let t = copy_s_ok n a.ptr a.len b e in sym t ∙ rw r.1 (take-append bytes r.0)

pub cx_of_string-Reads :
    (cap : ℕ) (s : CxString) (c c' : Cx) → CxReads s c → cx_of_string cap s ≡ ok c' → c' ≡ c
unfolding c_x_set_bstr
cx_of_string-Reads cap (id_int m) (c_x_int n) c' r e = sym (ok_inj e) ∙ ap c_x_int r
cx_of_string-Reads cap (id_int m) (c_x_bstr b) c' r e = absurd r
cx_of_string-Reads cap (id_bstr a) (c_x_int n) c' r e = absurd r
cx_of_string-Reads cap (id_bstr a) (c_x_bstr b) c' r e =
    let k = bind_ok (check_buffer_size a.len a.len) _ c' e in
    let t = bind_ok (read a.len a.ptr) _ c' k.2 in
    let u = bind_ok (store cap [] t.0) _ c' t.2 in
    let bytes : t.0 ≡ b = sym (read_ok a.len a.ptr t.0 t.1).1 ∙ rw r.1 (take-append b r.0) in
    sym (ok_inj u.2) ∙ ap c_x_bstr (sym (store_ok cap [] t.0 u.0 u.1).1 ∙ bytes)

-- The two parts of a decoded string
pub front-Reads : (a : ByteArray) (x y : Bytes) → Reads a (x ++ y) → take (length x) a.ptr ≡ x
front-Reads a x y r = rw (r.1, append_assoc x y r.0) (take-append x (y ++ r.0))

pub back-Reads :
    (a : ByteArray) (x y : Bytes)
    → Reads a (x ++ y)
    → length x + length y < 4294967296
    → take (sub32 a.len (length x)) (drop (length x) a.ptr) ≡ y
back-Reads a x y r small =
    let n : sub32 (length (x ++ y)) (length x) ≡ length y = omega (arith, length-append x y) in
    rw (r.1, n, append_assoc x y r.0, drop-append x (y ++ r.0)) (take-append y r.0)

pub map-u8 : (s : Bytes) → All (λ b. b < 256) s → map u8 s ≡ s
map-u8 [] h = refl
map-u8 (a ∷ s) h = let small : u8 a ≡ a = omega (arith, h.0) in rw (small, map-u8 s h.1) refl

module _ (ex : EdhocExternal) where
  pub decode_byte_string-encode :
      (b out c : Bytes) (n cap : ℕ)
      → ((n : ℕ) (b out : Bytes)
          → ex.cbor_encode_bstr_type_b_str n b ≡ some out
          → (s : ByteArray) × (ex.cbor_decode_bstr_type_b_str out ≡ some s) × Reads s b)
      → encode_byte_string ex b n ≡ ok out
      → decode_byte_string ex out cap ≡ ok c
      → c ≡ b
  unfolding encode_byte_string decode_byte_string
  decode_byte_string-encode b out c n size law e d =
      let r = law n b out (expect-some _ out e) in
      let t = bind_ok (expect (ex.cbor_decode_bstr_type_b_str out)) _ c d in
      let same : r.0 ≡ t.0 = (some_inj).0 (sym r.1 ∙ expect-some _ t.0 t.1) in
      copy_s-Reads size t.0 b c (subst (λ a. Reads a b) same r.2) t.2

  pub msg2_parse-encode :
      (g_y c2 msg2 : Bytes) (c_r : Cx) (m : ParsedMsg2)
      → ((n : ℕ) (b out : Bytes) (c : Cx)
          → ex.cbor_encode_m2 n (record { g_y_ciphertext_2 = of_bytes b; c_r = cx_string c })
            ≡ some out
          → (d : M2) × (ex.cbor_decode_m2 out ≡ some d)
            × Reads d.g_y_ciphertext_2 b
            × CxReads d.c_r c)
      → msg2_encode ex g_y c_r c2 ≡ ok msg2
      → msg2_parse ex msg2 (length g_y) ≡ ok m
      → (m.g_y ≡ g_y) × (m.c_r ≡ c_r) × (m.ciphertext_2 ≡ c2)
  unfolding msg2_encode msg2_parse
  msg2_parse-encode g_y c2 msg2 c_r m law e d =
      let k = bind_ok (check_buffer_size 683 (u32 (length g_y + length c2))) _ msg2 e in
      let a = bind_ok (store 683 [] g_y) _ msg2 k.2 in
      let b = bind_ok (store 683 a.0 c2) _ msg2 a.2 in
      let fa = store_ok 683 [] g_y a.0 a.1 in
      let fb = store_ok 683 a.0 c2 b.0 b.1 in
      let both : b.0 ≡ g_y ++ c2 = sym fb.1 ∙ ap (λ x. x ++ c2) (sym fa.1) in
      let l = law 700 b.0 msg2 c_r (expect-some _ msg2 b.2) in
      let x = bind_ok (expect (ex.cbor_decode_m2 msg2)) _ m d in
      let same : l.0 ≡ x.0 = (some_inj).0 (sym l.1 ∙ expect-some _ x.0 x.1) in
      let g : Reads x.0.g_y_ciphertext_2 (g_y ++ c2) = rw (← both, ← same) l.2 in
      let i : CxReads x.0.c_r c_r = rw (← same) l.3 in
      let y = bind_ok (copy_s (length g_y) x.0.g_y_ciphertext_2.ptr (length g_y)) _ m x.2 in
      let z =
        bind_ok
          (copy_s ciphertext_default_size (drop (length g_y) x.0.g_y_ciphertext_2.ptr)
            (sub32 x.0.g_y_ciphertext_2.len (length g_y)))
          _ m y.2 in
      let w = bind_ok (cx_of_string c_r_default_size x.0.c_r) _ m z.2 in
      let q = ok_inj w.2 in
      (
        sym (ap (λ (p : ParsedMsg2). p.g_y) q)
            ∙ sym (copy_s_ok (length g_y) _ (length g_y) y.0 y.1)
            ∙ front-Reads x.0.g_y_ciphertext_2 g_y c2 g,
        sym (ap (λ (p : ParsedMsg2). p.c_r) q)
            ∙ cx_of_string-Reads c_r_default_size x.0.c_r c_r w.0 i w.1,
        sym (ap (λ (p : ParsedMsg2). p.ciphertext_2) q)
            ∙ sym (copy_s_ok ciphertext_default_size _ _ z.0 z.1)
            ∙ back-Reads x.0.g_y_ciphertext_2 g_y c2 g (omega (arith, fb.0, ap length fa.1)),
      )
