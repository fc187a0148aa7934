-- ===== src/Options.antt =====
-- Option numbers, classes and the class-filtered encoding: inc/oscore/option.h and
-- src/oscore/option.c.
pub mod Encoding
use zephyr_uoscore_uedhoc.Prelude.{ℕ, Bool, false, not, ◌&&◌, ltb, ◌==◌, if◌then◌else◌}

abbrev pub coap_option_uri_host : ℕ
coap_option_uri_host = 3

abbrev pub coap_option_uri_port : ℕ
coap_option_uri_port = 7

abbrev pub coap_option_oscore : ℕ
coap_option_oscore = 9

abbrev pub coap_option_proxy_uri : ℕ
coap_option_proxy_uri = 35

abbrev pub coap_option_proxy_scheme : ℕ
coap_option_proxy_scheme = 39

-- `enum option_class`
pub data OptionClass : Type 0 where
  class_u class_i class_e : OptionClass

unfoldable pub is_class_e : ℕ → Bool
is_class_e code =
    not (code == coap_option_uri_host)
    && not (code == coap_option_uri_port)
    && not (code == coap_option_oscore)
    && not (code == coap_option_proxy_uri)
    && not (code == coap_option_proxy_scheme)

-- CLASS_U falls to the `default`.
unfoldable pub option_belongs_to_class : ℕ → OptionClass → Bool
unfolding is_class_e
option_belongs_to_class option_num class_i = false
option_belongs_to_class option_num class_e = is_class_e option_num
option_belongs_to_class option_num class_u = false

unfoldable pub option_field_len : ℕ → ℕ
option_field_len value = if ltb value 13 then 0 else if ltb value 269 then 1 else 2
