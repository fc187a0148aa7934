-- ===== src/Unprotect.antt =====
-- src/oscore/oscore2coap.c: an OSCORE packet becomes a CoAP packet. The option parser is in
-- OscoreOption, the replay window in Replay; the children hold the decrypted payload, the
-- merge of the options, and the whole.
pub mod Payload
pub mod Reorder
pub mod Requests
pub mod Steps
pub mod Run
pub mod Sorting
use zephyr_uoscore_uedhoc.Prelude.{ℕ}

-- The size of the array for the options of the plaintext.
abbrev pub e_options_size : ℕ
e_options_size = 10
