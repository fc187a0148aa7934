-- ===== src/Tests/Parts.antt =====
-- The theorems on the parts of both endpoints at concrete options.
use zephyr_uoscore_uedhoc.Prelude.{List, [], arith, refl, replicate, ℕ, ◌++◌, ◌∷◌, ◌≡◌}
use zephyr_uoscore_uedhoc.OscoreOption.{
  CompressedOption, get_oscore_opt_val_len, oscore_option_generate, parse_value,
}
use zephyr_uoscore_uedhoc.Protect.Classes.{contents, e_u_options_extract-contents}
use zephyr_uoscore_uedhoc.Coap.RoundTrip.{Numbered}
use zephyr_uoscore_uedhoc.Unprotect.Sorting.{IsIncreasing, count_of, sort_numbers-IsIncreasing}
use zephyr_uoscore_uedhoc.Memory.{Bytes, of_bytes, ok}
use zephyr_uoscore_uedhoc.Options.{is_class_e}
use zephyr_uoscore_uedhoc.Unprotect.Reorder.{sort_numbers}
use zephyr_uoscore_uedhoc.OscoreOption.RoundTrip.{parse_value-oscore_option_generate, received}
use zephyr_uoscore_uedhoc.Protect.Extract.{e_u_options_extract}
use zephyr_uoscore_uedhoc.OscoreOption.Wire.{wire}
use zephyr_uoscore_uedhoc.Coap.{CoapOption, CoapPacket}
use zephyr_uoscore_uedhoc.Protect.Placement.{numbers, oscore_pkg_generate-Numbered}
use zephyr_uoscore_uedhoc.Protect.Parts.{oscore_pkg_generate}

abbrev option_buffer : Bytes
option_buffer = replicate 22 0

abbrev no_option : CompressedOption
no_option = record {
  h = 0;
  k = 0;
  n = 0;
  piv = record { len = 0; ptr = [] };
  kid_context = record { len = 0; ptr = [] };
  kid = record { len = 0; ptr = [] };
}

-- Uri-Host, Uri-Path and Proxy-Scheme, of classes U, E and U.
abbrev mixed : List CoapOption
mixed =
    record { delta = 3; len = 1; value = 7 ∷ []; option_number = 3 }
    ∷ record { delta = 8; len = 1; value = 8 ∷ []; option_number = 11 }
    ∷ record { delta = 28; len = 1; value = 9 ∷ []; option_number = 39 }
    ∷ []

e_u_options_extract-contents_example :
    (contents (e_u_options_extract mixed).e_options ≡ (11, 1, 8 ∷ []) ∷ [])
    × (contents (e_u_options_extract mixed).u_options ≡ (3, 1, 7 ∷ []) ∷ (39, 1, 9 ∷ []) ∷ [])
    × Numbered 0 (e_u_options_extract mixed).e_options
    × Numbered 0 (e_u_options_extract mixed).u_options
unfolding is_class_e
e_u_options_extract-contents_example = e_u_options_extract-contents mixed (refl, (refl, (refl, tt)))

abbrev unsorted : List ℕ
unsorted = 11 ∷ 3 ∷ 39 ∷ 3 ∷ []

sort_numbers-IsIncreasing_example :
    IsIncreasing (sort_numbers 4 unsorted)
    × ((k : ℕ) → count_of k (sort_numbers 4 unsorted) ≡ count_of k unsorted)
sort_numbers-IsIncreasing_example = sort_numbers-IsIncreasing 4 unsorted refl

-- The PIV 20, the KID context "cc" and the KID 1.
parse_value-oscore_option_generate_example :
    (get_oscore_opt_val_len (of_bytes (20 ∷ [])) (of_bytes (1 ∷ [])) (of_bytes (b'c' ∷ b'c' ∷ []))
      ≡ 6)
    × (oscore_option_generate
          (of_bytes (20 ∷ []))
          (of_bytes (1 ∷ []))
          (of_bytes (b'c' ∷ b'c' ∷ []))
          (record { option_number = 0; len = 6; value = option_buffer })
        ≡ ok (record {
          option_number = 9;
          len = 6;
          value = wire (20 ∷ []) (b'c' ∷ b'c' ∷ []) (1 ∷ []) ++ replicate 16 0;
        }))
    × (parse_value
          (record {
            delta = 9;
            len = 6;
            value = wire (20 ∷ []) (b'c' ∷ b'c' ∷ []) (1 ∷ []) ++ 0xFF ∷ [];
            option_number = 9;
          })
          no_option
        ≡ ok (received (20 ∷ []) (b'c' ∷ b'c' ∷ []) (1 ∷ []) (0xFF ∷ [])))
parse_value-oscore_option_generate_example =
    parse_value-oscore_option_generate (20 ∷ []) (b'c' ∷ b'c' ∷ []) (1 ∷ []) [] [] [] option_buffer
      (0xFF ∷ []) 0 9 no_option (omega arith, omega arith) (omega arith) (omega arith) (omega arith)

-- A GET, and its class U options with the OSCORE option between them.
abbrev request : CoapPacket
request = record {
  header = record { ver = 1; type = 0; tkl = 0; code = 1; mid = 7 };
  token = [];
  options = [];
  payload_len = 0;
  payload = [];
}

oscore_pkg_generate-Numbered_example :
    (q : CoapPacket) × (oscore_pkg_generate request mixed
        (1 ∷ 2 ∷ [])
        (record { option_number = 9; len = 1; value = 8 ∷ [] })
      ≡ ok q)
    × Numbered 0 q.options
    × (numbers q.options ≡ 3 ∷ 9 ∷ 11 ∷ 39 ∷ [])
oscore_pkg_generate-Numbered_example =
    oscore_pkg_generate-Numbered request mixed (1 ∷ 2 ∷ [])
      (record { option_number = 9; len = 1; value = 8 ∷ [] })
      (omega arith, (omega arith, (omega arith, tt))) refl (omega arith)
