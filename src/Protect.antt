-- ===== src/Protect.antt =====
-- src/oscore/coap2oscore.c: a CoAP packet becomes an OSCORE packet. The children hold the split
-- of the options, the packets, and the whole.
pub mod Classes
pub mod Extract
pub mod Parts
pub mod Placement
pub mod Encrypted
pub mod Sequence
pub mod Steps
pub mod Run
use zephyr_uoscore_uedhoc.Prelude.{ℕ, Bool, ◌%◌, ◌/◌, ◌==◌}

-- Of inc/oscore.h and inc/oscore/oscore_coap.h.
abbrev pub max_plaintext_len : ℕ
max_plaintext_len = 128

abbrev pub max_ciphertext_len : ℕ
max_ciphertext_len = 136

abbrev pub max_e_options : ℕ
max_e_options = 30

abbrev pub code_empty : ℕ
code_empty = 0

abbrev pub type_ack : ℕ
type_ack = 2

abbrev pub code_req_post : ℕ
code_req_post = 0x02

abbrev pub code_resp_changed : ℕ
code_resp_changed = 0x44

-- `(code & CODE_CLASS_MASK) == REQUEST_CLASS`
abbrev pub is_request_code : ℕ → Bool
is_request_code code = code / 32 % 8 == 0
