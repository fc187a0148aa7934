-- ===== src/Exchange/Refused.antt =====
-- Requests that `oscore2coap` (src/oscore/oscore2coap.c) does not open, from their bytes on.
use zephyr_uoscore_uedhoc.Prelude.{[], if◌then◌else◌, length, ◌++◌, ◌==◌}
use zephyr_uoscore_uedhoc.Memory.{ByteArray, Bytes}
use zephyr_uoscore_uedhoc.Context.{Context}
use zephyr_uoscore_uedhoc.Context.NonceLaws.{held}
use zephyr_uoscore_uedhoc.OscoreOption.{CompressedOption}
use zephyr_uoscore_uedhoc.OscoreOption.Wire.{has_context}

-- The option as it is parsed that holds no PIV.
abbrev without_piv : Bytes → Bytes → Bytes → ByteArray → CompressedOption
without_piv ctx kid rest old = record {
  h = has_context ctx;
  k = 1;
  n = 0;
  piv = record old { ptr = [] };
  kid_context = record {
    len = length ctx;
    ptr = if has_context ctx == 0 then [] else ctx ++ (kid ++ rest);
  };
  kid = held kid rest;
}
