-- ===== src/Protect/Extract.antt =====
-- `e_u_options_extract` of src/oscore/coap2oscore.c.
use zephyr_uoscore_uedhoc.Prelude.{
  ℕ, List, [], if◌then◌else◌, leb, ltb, sub16, u16, u8, ◌&&◌, ◌++◌, ◌+◌, ◌∷◌,
}
use zephyr_uoscore_uedhoc.Options.{is_class_e}
use zephyr_uoscore_uedhoc.Coap.{CoapOption}

-- The local variables and outputs of the loop; the arrays are the lists so far.
pub record Split : Type 0 where
  pub e_options : List CoapOption
  pub e_options_len : ℕ
  pub u_options : List CoapOption
  pub temp_option_nr : ℕ
  pub e_delta_sum : ℕ
  pub u_delta_sum : ℕ

-- The extra bytes that the loop counts for a delta or a length.
unfoldable pub counted_extra : ℕ → ℕ
counted_extra n = if ltb 13 n && ltb n 243 then 1 else if leb 243 n then 2 else 0

-- An option as it stands in one of the two arrays, after those of sum `delta_sum`.
abbrev pub renumbered : CoapOption → ℕ → ℕ → CoapOption
renumbered o number delta_sum = record {
  delta = sub16 number delta_sum;
  len = o.len;
  value = o.value;
  option_number = number;
}

-- One round.
unfoldable pub extract_option : CoapOption → Split → Split
unfolding is_class_e counted_extra
extract_option o s =
    let number = u8 (s.temp_option_nr + o.delta) in
    let e = renumbered o number s.e_delta_sum in
    let u = renumbered o number s.u_delta_sum in
    if is_class_e number
    then record s {
      e_options = s.e_options ++ e ∷ [];
      e_options_len =
          u16 (s.e_options_len + 1 + counted_extra o.delta + counted_extra o.len + o.len);
      temp_option_nr = number;
      e_delta_sum = u8 (s.e_delta_sum + e.delta);
    }
    else record s {
      u_options = s.u_options ++ u ∷ [];
      temp_option_nr = number;
      u_delta_sum = u8 (s.u_delta_sum + u.delta);
    }

unfoldable pub extract_from : List CoapOption → Split → Split
extract_from [] s = s
extract_from (o ∷ os) s = extract_from os (extract_option o s)

abbrev pub no_options : Split
no_options = record {
  e_options = [];
  e_options_len = 0;
  u_options = [];
  temp_option_nr = 0;
  e_delta_sum = 0;
  u_delta_sum = 0;
}

-- Each array has room for all options of a packet.
unfoldable pub e_u_options_extract : List CoapOption → Split
unfolding extract_from extract_option
e_u_options_extract options = extract_from options no_options
