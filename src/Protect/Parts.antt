-- ===== src/Protect/Parts.antt =====
-- `plaintext_setup` and `oscore_pkg_generate` of src/oscore/coap2oscore.c.
use zephyr_uoscore_uedhoc.Prelude.{
  ℕ, List, [], if◌then◌else◌, leb, length, ltb, sub16, sub32, suc, u16, u8, ◌+◌, ◌==◌, ◌∷◌,
}
use zephyr_uoscore_uedhoc.Memory.{
  Bytes, Result, append_s, check_buffer_size, fault, ok, store, ◌>>=◌, ◌>>◌,
}
use zephyr_uoscore_uedhoc.Protect.{
  code_req_post, code_resp_changed, is_request_code, max_e_options, max_plaintext_len,
}
use zephyr_uoscore_uedhoc.Coap.Packet.{max_options_len}
use zephyr_uoscore_uedhoc.Coap.Encode.{options_into_byte_string}
use zephyr_uoscore_uedhoc.OscoreOption.{OscoreOption}
use zephyr_uoscore_uedhoc.Options.{coap_option_oscore}
use zephyr_uoscore_uedhoc.Coap.{CoapOption, CoapPacket, max_option_count}

-- The payload behind the marker 0xFF.
unfoldable pub plaintext_payload : CoapPacket → ℕ → Bytes → Result Bytes
unfolding store append_s
plaintext_payload p len out = if p.payload_len == 0 then ok out else (do
  marked ← store max_plaintext_len out (0xFF ∷ [])
  append_s max_plaintext_len marked (sub32 len (length marked)) p.payload p.payload_len)

-- `plaintext->len` is the length that the caller computed, the array has MAX_PLAINTEXT_LEN
-- bytes. The result is the bytes stored.
unfoldable pub plaintext_setup : CoapPacket → List CoapOption → ℕ → Result Bytes
unfolding store append_s check_buffer_size plaintext_payload
plaintext_setup p e_options len = do
  coded ← store max_plaintext_len [] (p.header.code ∷ [])
  let temp_opt_bytes_len = u16 (max_options_len e_options)
  check_buffer_size max_e_options temp_opt_bytes_len
  options ← options_into_byte_string max_e_options e_options temp_opt_bytes_len
  optioned ← append_s max_plaintext_len coded (sub32 len 1) options (length options)
  plaintext_payload p len optioned

-- The position of the OSCORE option: before the first option of a larger number.
unfoldable pub oscore_opt_pos : ℕ → List CoapOption → ℕ
oscore_opt_pos i [] = i
oscore_opt_pos i (u ∷ us) =
    let later = oscore_opt_pos (i + 1) us in
    if ltb coap_option_oscore u.option_number then i else later

-- An option behind those of sum `sum`.
abbrev pub after : ℕ → CoapOption → CoapOption
after sum o = record o { delta = sub16 o.option_number sum }

-- The loop once the OSCORE option is placed.
unfoldable pub place_rest : ℕ → List CoapOption → List CoapOption
place_rest sum [] = []
place_rest sum (u ∷ us) = after sum u ∷ place_rest (u8 (sum + sub16 u.option_number sum)) us

-- The loop; `i` is the index of the next option.
unfoldable pub place_options : ℕ → ℕ → ℕ → CoapOption → List CoapOption → List CoapOption
unfolding place_rest
place_options pos i sum o [] = if i == pos then after sum o ∷ [] else []
place_options pos i sum o (u ∷ us) =
    let later = place_options pos (i + 1) (u8 (sum + sub16 u.option_number sum)) o us in
    if i == pos
    then after sum o ∷ place_rest (u8 (sum + sub16 o.option_number sum)) (u ∷ us)
    else after sum u ∷ later

abbrev pub oscore_as_option : OscoreOption → CoapOption
oscore_as_option o = record {
  delta = 0;
  len = o.len;
  value = o.value;
  option_number = o.option_number;
}

-- The array of the packet has MAX_OPTION_COUNT elements.
unfoldable pub oscore_pkg_generate :
    CoapPacket → List CoapOption → Bytes → OscoreOption → Result CoapPacket
unfolding oscore_opt_pos place_options
oscore_pkg_generate p u_options ciphertext o =
    let code = if is_request_code p.header.code then code_req_post else code_resp_changed in
    let packet : CoapPacket = record {
      header = record (p.header) { code = code };
      token = if p.header.tkl == 0 then [] else p.token;
      options = place_options (oscore_opt_pos 0 u_options) 0 0 (oscore_as_option o) u_options;
      payload_len = length ciphertext;
      payload = ciphertext;
    } in
    if leb (suc (length u_options)) max_option_count then ok packet else fault
