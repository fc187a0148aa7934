-- ===== src/Edhoc/Opening.antt =====
-- The first message, from the initiator to the responder (`msg1_gen` of src/edhoc/initiator.c,
-- `msg1_parse` of src/edhoc/responder.c).
use zephyr_uoscore_uedhoc.Prelude.{
  ℕ, ◌≡◌, ◌≤◌, ◌<◌, refl, ap, arith, All, length, some, none, [], ◌∷◌, ◌∙◌, if◌then◌else◌, le→ltb,
  ◌==◌,
}
use zephyr_uoscore_uedhoc.Memory.{
  ok, Bytes, ByteArray, check_buffer_size, copy_s, of_bytes, read, store,
}
use zephyr_uoscore_uedhoc.Edhoc.Strings.{Reads, CxReads, map-u8}
use zephyr_uoscore_uedhoc.Crypto.Expand.{expect-some}
use zephyr_uoscore_uedhoc.Memory.Laws.{bind_ok, check_fits, ok_inj, read_prefix}
use zephyr_uoscore_uedhoc.Crypto.Wrapper.{expect}
use zephyr_uoscore_uedhoc.Edhoc.Initiator.{message_1_of, msg1_gen, suites_message}
use zephyr_uoscore_uedhoc.Edhoc.Coders.{CxString, EdhocExternal, Message1, id_bstr, id_int}
use zephyr_uoscore_uedhoc.Edhoc.Suites.{Cx, c_x_bstr, c_x_int, c_x_set_bstr}
use zephyr_uoscore_uedhoc.Edhoc.Messages.{InitiatorContext, RuntimeContext, msg_1_default_size}
use zephyr_uoscore_uedhoc.Edhoc.Responder.{
  g_x_default_size, msg1_parse, parsed_c_i, suites_i_size, suites_of_message,
}

pub copy_s-Reads_fits :
    (n : ℕ) (a : ByteArray) (b : Bytes) → Reads a b → length b ≤ n → copy_s n a.ptr a.len ≡ ok b
unfolding copy_s
copy_s-Reads_fits n a b r h = rw (r.1, check_fits n (length b) h) (read_prefix b r.0)

suites_of_message-fits :
    (s : Bytes)
    → All (λ b. b < 256) s
    → length s ≤ 5
    → suites_of_message suites_i_size (suites_message s) ≡ ok s
suites_of_message-fits [] h k = refl
suites_of_message-fits (a ∷ []) h k = ap ok (map-u8 (a ∷ []) h)
suites_of_message-fits (a ∷ b ∷ s) h k =
    rw (le→ltb suites_i_size (length (a ∷ b ∷ s)) k) (ap ok (map-u8 (a ∷ b ∷ s) h))

-- What the responder keeps of C_I: of a string nothing.
abbrev pub kept_c_i : Cx → Cx
kept_c_i (c_x_int n) = c_x_int n
kept_c_i (c_x_bstr b) = c_x_bstr []

parsed_c_i-Reads : (s : CxString) (c : Cx) → CxReads s c → parsed_c_i s ≡ ok (kept_c_i c)
unfolding c_x_set_bstr check_buffer_size read store
parsed_c_i-Reads (id_int m) (c_x_int n) r = ap (λ k. ok (c_x_int k)) r
parsed_c_i-Reads (id_int m) (c_x_bstr b) r = absurd r
parsed_c_i-Reads (id_bstr a) (c_x_int n) r = absurd r
parsed_c_i-Reads (id_bstr a) (c_x_bstr b) r = ground arith

module _ (ex : EdhocExternal) where
  -- The responder accepts what `msg1_gen` writes without external authorization data, for at most
  -- five suites and a key of at most 33 bytes: it gets the method, the suites and G_X back, and
  -- of C_I the number, but an empty string for a string. The caller's array for EAD_1 and its
  -- length stay as they were. The coders decode what they encode.
  pub msg1_parse-gen :
      (ci : InitiatorContext) (rc0 rc : RuntimeContext) (n : ℕ)
      → ((out : Bytes) (k : ℕ)
          → ex.cbor_encode_message_1 k (message_1_of ci) ≡ some out
          → (d : Message1) × (ex.cbor_decode_message_1 out ≡ some d)
            × (d.method ≡ ci.method)
            × (d.suites_i ≡ suites_message ci.suites_i)
            × Reads d.g_x ci.g_x
            × CxReads d.c_i ci.c_i
            × (d.ead_1 ≡ (message_1_of ci).ead_1))
      → ci.ead_1 ≡ []
      → All (λ b. b < 256) ci.suites_i
      → length ci.suites_i ≤ 5
      → length ci.g_x ≤ 33
      → msg1_gen ex ci rc0 ≡ ok rc
      → msg1_parse ex rc.msg1 n
        ≡ ok (record {
          method = ci.method;
          suites_i = ci.suites_i;
          g_x = ci.g_x;
          c_i = kept_c_i ci.c_i;
          ead_1 = none;
        })
  unfolding msg1_gen msg1_parse message_1_of
  msg1_parse-gen ci rc0 rc n law no_ead bytes few short h =
      let one =
        bind_ok (expect (ex.cbor_encode_message_1 msg_1_default_size (message_1_of ci))) _ rc h in
      let msg1 : one.0 ≡ rc.msg1 = ap (λ (z : RuntimeContext). z.msg1) (ok_inj one.2) in
      let l = law rc.msg1 msg_1_default_size (expect-some _ one.0 one.1 ∙ ap some msg1) in
      let ead : l.0.ead_1 ≡ none =
        l.6 ∙ ap (λ b. if length b == 0 then none else some (of_bytes b)) no_ead in
      rw
        (
          l.1,
          l.3,
          suites_of_message-fits ci.suites_i bytes few,
          copy_s-Reads_fits g_x_default_size l.0.g_x ci.g_x l.4 short,
          parsed_c_i-Reads l.0.c_i ci.c_i l.5,
          ead,
          l.2,
        )
        refl
