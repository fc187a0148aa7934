-- ===== src/Unprotect/Steps.antt =====
-- `o_coap_pkg_generate` and the decryption of src/oscore/oscore2coap.c.
use zephyr_uoscore_uedhoc.Memory.{◌>>=◌, ◌>>◌, ByteArray, Bytes, Result, check_buffer_size, ok}
use zephyr_uoscore_uedhoc.Prelude.{[], drop, if◌then◌else◌, length, sub32, ◌++◌, ◌==◌}
use zephyr_uoscore_uedhoc.Unprotect.Payload.{oscore_decrypted_payload_parser}
use zephyr_uoscore_uedhoc.Context.{Context, auth_tag_len}
use zephyr_uoscore_uedhoc.Protect.{max_plaintext_len}
use zephyr_uoscore_uedhoc.Coap.{CoapPacket}
use zephyr_uoscore_uedhoc.Crypto.{External}
use zephyr_uoscore_uedhoc.Unprotect.Reorder.{options_from_oscore_reorder}
use zephyr_uoscore_uedhoc.Context.Cose.{oscore_cose_decrypt}

unfoldable pub o_coap_pkg_generate : ByteArray → CoapPacket → Result CoapPacket
o_coap_pkg_generate decrypted_payload p = do
  d ← oscore_decrypted_payload_parser decrypted_payload
  options ← options_from_oscore_reorder p.options d.e_options
  ok (record {
    header = record (p.header) { code = d.code };
    token = if p.header.tkl == 0 then [] else p.token;
    options = options;
    payload_len = d.payload.len;
    payload = if d.payload.len == 0 then [] else d.payload.ptr;
  })

-- Decryption with the recipient key, into an array that held `old` before.
unfoldable pub payload_decrypt : External → CoapPacket → Bytes → Context → Result ByteArray
payload_decrypt ex p old c = do
  let len = sub32 p.payload_len auth_tag_len
  check_buffer_size max_plaintext_len len
  bytes ←
      oscore_cose_decrypt ex (record { len = p.payload_len; ptr = p.payload }) len c.rrc.nonce
        c.rrc.aad c.rc.recipient_key
  ok (record { len = len; ptr = bytes ++ drop (length bytes) old })
