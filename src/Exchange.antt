-- ===== src/Exchange.antt =====
-- src/oscore/coap2oscore.c and src/oscore/oscore2coap.c together: what one endpoint protects and
-- the other opens.
pub mod Cipher
pub mod Accepted
pub mod Contexts
pub mod Exchanges
pub mod Merged
pub mod Opened
pub mod Packets
pub mod Plaintext
pub mod Refused
pub mod Requests
pub mod Responses
pub mod Steps
use zephyr_uoscore_uedhoc.Prelude.{
  ℕ, All, List, [], length, true, ◌++◌, ◌+◌, ◌<◌, ◌∷◌, ◌≡◌, ◌≢◌, ◌≤◌,
}
use zephyr_uoscore_uedhoc.Coap.{CoapOption, CoapPacket}
use zephyr_uoscore_uedhoc.Options.{is_class_e}
use zephyr_uoscore_uedhoc.Memory.{Bytes}
use zephyr_uoscore_uedhoc.Coap.Packet.{max_options_len}
use zephyr_uoscore_uedhoc.Coap.Read.{IsReadable}
use zephyr_uoscore_uedhoc.Coap.Layout.{layout}
use zephyr_uoscore_uedhoc.Protect.{max_e_options, max_plaintext_len}
use zephyr_uoscore_uedhoc.Coap.Write.{payload_bytes}

-- The plaintext of a packet whose options are all of class E.
abbrev pub plaintext_of : CoapPacket → Bytes
plaintext_of p = p.header.code ∷ (layout p.options ++ payload_bytes p)

-- Every number is the sum of the deltas, and none wraps.
abbrev pub Ascending : ℕ → List CoapOption → Type 0
Ascending number [] = Unit
Ascending number (o ∷ os) =
    (o.option_number ≡ number + o.delta) × (o.option_number < 256) × Ascending o.option_number os

-- An option of class E for which the sender counts the bytes that its encoding has.
pub record IsCounted (o : CoapOption) : Type 0 where
  pub class_e : is_class_e o.option_number ≡ true
  pub not_13 : o.delta ≢ 13
  pub small : o.delta < 243

-- A packet that survives protection: its options are of class E and fit the sender's array for
-- them, and the plaintext leaves a byte of its array free.
pub record IsProtectable (p : CoapPacket) : Type 0 where
  pub readable : IsReadable p
  pub ascending : Ascending 0 p.options
  pub counted : All IsCounted p.options
  pub e_options_fit : max_options_len p.options ≤ max_e_options
  pub plaintext_fits : length (plaintext_of p) < max_plaintext_len
