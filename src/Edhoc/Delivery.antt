-- ===== src/Edhoc/Delivery.antt =====
-- The identifier and the authenticator that a plaintext carries (src/edhoc/plaintext_encode.c,
-- src/edhoc/ciphertext.c, src/edhoc/plaintext_decode.c), for credentials with a key identifier.
use zephyr_uoscore_uedhoc.Edhoc.Strings.{Reads}
use zephyr_uoscore_uedhoc.Prelude.{
  ℕ, ◌≡◌, ◌<◌, sym, ap, arith, false, length, some, [], ◌++◌, ◌∙◌, if◌then◌else◌, some_inj,
  take_all, u32, ◌%◌, ◌*◌, ◌+◌, ◌/◌, ◌==◌, none, refl, sub32, ◌≤◌,
}
use zephyr_uoscore_uedhoc.Memory.{ok, Bytes, append_s, check_buffer_size, of_bytes, ◌>>=◌}
use zephyr_uoscore_uedhoc.Edhoc.Plaintext.{
  id_cred2kid, int_at, int_bytes, kid_bytes, kid_default_size, id_cred_x_encode, no_entries,
  plaintext_default_size, plaintext_split,
}
use zephyr_uoscore_uedhoc.Crypto.Wrapper.{expect}
use zephyr_uoscore_uedhoc.Edhoc.Ciphertext.{
  Ciphertext, gen_ead, gen_id_and_mac, gen_plaintext, is_ciphertext4, split_plaintext,
}
use zephyr_uoscore_uedhoc.Edhoc.Coders.{EdhocExternal, IdCredMap, PlaintextX, id_kid_int}
use zephyr_uoscore_uedhoc.Edhoc.Authentication.{encode_byte_string}
use zephyr_uoscore_uedhoc.Memory.Laws.{bind_ok, ok_inj}
use zephyr_uoscore_uedhoc.Crypto.Expand.{expect-some}
use zephyr_uoscore_uedhoc.Edhoc.Opening.{copy_s-Reads_fits}

append_s_ok :
    (cap : ℕ) (out : Bytes) (dest_len : ℕ) (bytes b : Bytes)
    → append_s cap out dest_len bytes (length bytes) ≡ ok b
    → out ++ bytes ≡ b
unfolding append_s
append_s_ok cap out dest_len bytes b e = ground (arith, take_all (length bytes) bytes)

int_at-int_bytes : (n : ℕ) → n < 4294967296 → int_at (int_bytes n) ≡ ok n
unfolding int_at int_bytes
int_at-int_bytes n h =
    let e : n % 256 + n / 256 % 256 * 256 + n / 65536 % 256 * 65536 + n / 16777216 % 256 * 16777216
        ≡ n =
      omega arith in
    ap ok e

module _ (ex : EdhocExternal) where
  id_cred2kid-int :
      (id_cred kid : Bytes) (m : IdCredMap) (n size : ℕ)
      → ex.cbor_decode_id_cred_x_map id_cred ≡ some m
      → m.kid ≡ some n
      → id_cred2kid ex id_cred size ≡ ok kid
      → ex.cbor_encode_int_type_i size n ≡ some kid
  unfolding id_cred2kid
  id_cred2kid-int id_cred kid m n size known has e =
      let d = bind_ok (expect (ex.cbor_decode_id_cred_x_map id_cred)) _ kid e in
      let same : d.0 ≡ m = (some_inj).0 (sym (expect-some _ d.0 d.1) ∙ known) in
      let k : kid_bytes ex size (some n) ≡ ok kid =
        ap (kid_bytes ex size) (sym (ap (λ (z : IdCredMap). z.kid) same ∙ has)) ∙ d.2 in
      expect-some _ kid k

  id_and_mac-joined :
      (id enc p : Bytes)
      → (append_s plaintext_default_size [] plaintext_default_size id (length id) >>= λ a.
          append_s plaintext_default_size a
            (sub32 plaintext_default_size (length id))
            enc
            (length enc))
        ≡ ok p
      → id ++ enc ≡ p
  id_and_mac-joined id enc p e =
      let a = bind_ok (append_s 650 [] 650 id (length id)) _ p e in
      let front : id ≡ a.0 = append_s_ok 650 [] 650 id a.0 a.1 in
      ap (λ x. x ++ enc) front ∙ append_s_ok 650 a.0 (sub32 650 (length id)) enc p a.2

  gen_id_and_mac-parts :
      (ctxt : Ciphertext) (id_cred enc p : Bytes)
      → is_ciphertext4 ctxt ≡ false
      → gen_id_and_mac ex ctxt id_cred enc ≡ ok p
      → (kid : Bytes) × (id_cred2kid ex id_cred kid_default_size ≡ ok kid)
        × ((if length kid == 0 then id_cred else kid) ++ enc ≡ p)
  unfolding gen_id_and_mac
  gen_id_and_mac-parts ctxt id_cred enc p two e =
      let e' = rw two at e in
      let k = bind_ok (id_cred2kid ex id_cred kid_default_size) _ p e' in
      (k.0, k.1, id_and_mac-joined (if length k.0 == 0 then id_cred else k.0) enc p k.2)

  -- The plaintext of a credential with a key identifier
  gen_plaintext-parts :
      (ctxt : Ciphertext) (id_cred sgn p : Bytes)
      → is_ciphertext4 ctxt ≡ false
      → gen_plaintext ex ctxt id_cred sgn [] ≡ ok p
      → (size : ℕ) × (enc : Bytes) × (kid : Bytes) × (ex.cbor_encode_bstr_type_b_str size sgn
          ≡ some enc)
        × (id_cred2kid ex id_cred kid_default_size ≡ ok kid)
        × ((if length kid == 0 then id_cred else kid) ++ enc ≡ p)
  unfolding gen_plaintext gen_ead encode_byte_string
  gen_plaintext-parts ctxt id_cred sgn p two e =
      let z = bind_ok (check_buffer_size 128 (u32 (length sgn + 2))) _ p e in
      let s = bind_ok (encode_byte_string ex sgn (u32 (length sgn + 2))) _ p z.2 in
      let g = bind_ok (gen_id_and_mac ex ctxt id_cred s.0) _ p s.2 in
      let r = gen_id_and_mac-parts ctxt id_cred s.0 g.0 two g.1 in
      (u32 (length sgn + 2), s.0, r.0, expect-some _ s.0 s.1, r.1, r.2 ∙ ok_inj g.2)

  -- Messages 2 and 3, without external authorization data: what the receiver splits off the
  -- plaintext that was generated for a key identifier is the sender's own ID_CRED and its
  -- signature or MAC, where the encoding of the identifier is not empty, ID_CRED is its map's
  -- encoding, the coder decodes the parts of a plaintext, and the authenticator fits its buffer.
  pub split_plaintext-gen :
      (ctxt : Ciphertext) (id_cred sgn p : Bytes) (m : IdCredMap) (n : ℕ)
      (id_cred_len sgn_len ead_len : ℕ)
      → is_ciphertext4 ctxt ≡ false
      → ex.cbor_decode_id_cred_x_map id_cred ≡ some m
      → m.kid ≡ some n
      → n < 4294967296
      → ((size : ℕ) (out : Bytes) → ex.cbor_encode_int_type_i size n ≡ some out → 1 ≤ length out)
      → ex.cbor_encode_id_cred_x_map id_cred_len (record no_entries { kid = some n }) ≡ some id_cred
      → ((size size' : ℕ) (kid enc : Bytes)
          → ex.cbor_encode_int_type_i size n ≡ some kid
          → ex.cbor_encode_bstr_type_b_str size' sgn ≡ some enc
          → (x : PlaintextX) × (ex.cbor_decode_plaintext (kid ++ enc) ≡ some x)
            × (x.id_cred_x ≡ id_kid_int n)
            × Reads x.sgn_or_mac_x sgn
            × (x.ad_x ≡ none))
      → length sgn ≤ sgn_len
      → gen_plaintext ex ctxt id_cred sgn [] ≡ ok p
      → split_plaintext ex ctxt p (length p) id_cred_len sgn_len ead_len
        ≡ ok (record { id_cred_x = of_bytes id_cred; sign_or_mac = sgn; ad = [] })
  unfolding split_plaintext plaintext_split id_cred_x_encode
  split_plaintext-gen ctxt id_cred sgn p m n id_cred_len sgn_len ead_len two known has small filled
        id law fits e =
      let g = gen_plaintext-parts ctxt id_cred sgn p two e in
      let kid = id_cred2kid-int id_cred g.2 m n kid_default_size known has g.4 in
      let not_empty : (length g.2 == 0) ≡ false = ground (arith, filled kid_default_size g.2 kid) in
      let joined : g.2 ++ g.1 ≡ p = rw not_empty at g.5 in
      let l = law kid_default_size g.0 g.2 g.1 kid g.3 in
      let decoded : ex.cbor_decode_plaintext p ≡ some l.0 =
        ap ex.cbor_decode_plaintext (sym joined) ∙ l.1 in
      rw
        (
          two,
          decoded,
          l.2,
          int_at-int_bytes n small,
          id,
          copy_s-Reads_fits sgn_len l.0.sgn_or_mac_x sgn l.3 fits,
          l.4,
        )
        refl
