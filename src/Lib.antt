-- ===== src/Lib.antt =====
-- OSCORE (RFC 8613) and EDHOC as uoscore-uedhoc implements them for constrained devices, in C. For
-- OSCORE, CoAP packets are parsed, protected or unprotected under a security context, and written
-- back. EDHOC is the key exchange of an initiator and a responder, in three or four messages, which
-- ends with the key material for such a context.
--
-- The parts, the files here and the sources that they model (paths from the repository's root):
--
-- - Memory: inc/common/oscore_edhoc_error.h, inc/common/byte_array.h, src/common/byte_array.c and
--   src/common/memcpy_s.c. An error code or a value is a `Result`; the macro TRY is its `>>=`.
-- - Coap: src/oscore/oscore_coap.c and inc/oscore/oscore_coap.h. `Encode` holds
--   `options_into_byte_string`, `Decode` holds `buf2options` and the parser of the same shape in
--   oscore2coap.c, `Packet` holds `buf2coap` and `coap2buf`. `Fields`, `Layout`, `RoundTrip`,
--   `Write`, `Read` and `Pointers` are proofs, from one field of an option up to a packet.
-- - Options: src/oscore/option.c, with the encoding for the AAD in `Encoding`.
-- - Crypto: the parameters for code outside the library (TinyCrypt, the CBOR encoders that zcbor
--   generates) in `External`; `Wrapper` holds `aead` and the HKDF of src/common/crypto_wrapper.c,
--   `Expand` a proof.
-- - Context: src/oscore/security_context.c. `Piv` holds `sender_seq_num2piv`, `Nonce` holds
--   `create_nonce` (src/oscore/nonce.c), `Cose` holds src/oscore/oscore_cose.c and
--   src/oscore/aad.c, `Derive` the key derivation with src/oscore/oscore_hkdf_info.c, `Update`
--   holds `context_update` and `oscore_context_init`. `PivLaws`, `NonceLaws` and `NonceReuse` are
--   proofs.
-- - OscoreOption: the OSCORE option, generated in src/oscore/coap2oscore.c and parsed in
--   src/oscore/oscore2coap.c. `Wire` and `RoundTrip` are proofs.
-- - Protect: `coap2oscore` of src/oscore/coap2oscore.c. It parses the packet, splits its options
--   (`Extract`), makes plaintext and packet (`Parts`, `Steps`), takes a sequence number and
--   updates the context (`Run`). `Classes`, `Placement`, `Sequence` and
--   `Encrypted` are proofs.
-- - Replay: the replay window of src/oscore/oscore2coap.c, with proofs in `Window`.
-- - Unprotect: `oscore2coap` of the same file. It parses the packet and its OSCORE option, checks
--   and updates the context for a request, decrypts (`Steps`, `Run`), parses the plaintext
--   (`Payload`) and merges the options (`Reorder`). `Sorting` and `Requests` are proofs.
-- - Exchange: src/oscore/coap2oscore.c and src/oscore/oscore2coap.c together, in proofs. `Plaintext`
--   and `Packets` are about what the sender makes, `Opened` and `Merged` about what the recipient
--   makes of it, `Cipher` and `Steps` about both over one AEAD; `Responses` composes them for a
--   response; `Contexts`, `Accepted` and `Requests` add the contexts for a request, `Exchanges`
--   follows a request with its response, and `Refused` requests that are not opened.
-- - Edhoc: src/edhoc, inc/edhoc.h and inc/edhoc. `Suites` holds suites.c, edhoc_method_type.c and
--   c_x.c; `Coders` the parameters for code outside the library (the coders that zcbor generates,
--   SHA-256, compact25519); `Wrapper` the rest of src/common/crypto_wrapper.c; `Keys` prk.c, okm.c,
--   hkdf_info.c, edhoc_exporter.c, edhoc_cose.c and associated_data_encode.c; `Transcript` th.c;
--   `Authentication` signature_or_mac_msg.c; `Plaintext` plaintext_decode.c and plaintext_encode.c;
--   `Ciphertext` ciphertext.c; `Credentials` retrieve_cred.c and cert.c; `Messages`
--   runtime_context.c and the contexts; `Initiator` and `Responder` the two parties, each up to its
--   run over the callbacks `tx` and `rx`. `Limits`, `Support`, `Lookup`, `Verify`, `Recover`,
--   `Strings`, `Opening`, `Delivery`, `Closing`, `Guards`, `Agreement`, `Secrets`, `Session`,
--   `Overflow` and `Runs` are proofs.
-- - Mbed: src/common/crypto_wrapper.c and `cert_x509_verify` of src/edhoc/cert.c as they are built
--   for Mbed TLS, whose calls are parameters, with the macro TRY_EXPECT_PSA. `Wrapper` holds the
--   AEAD, the HKDF and the hash, `Point` `mbedtls_ecp_decompress`, `Curve` signatures and
--   Diffie-Hellman, `Certificates` the X.509 certificates. `KeyStore`, `Released`, `Expansion` and
--   `Certified` are proofs.
-- - Prelude: lists, words and tests on numbers that all share. Tests: concrete inputs.
--
-- Conventions:
--
-- - A pointer into a buffer is the list of bytes from it to the buffer's end, so a read past the
--   end is seen; NULL is the empty list. A `fault` is a read or write outside an object, or of an
--   element that was never set, which C leaves undefined. Output parameters are results.
-- - Arithmetic on uint8_t, uint16_t and uint32_t wraps where the source's does (`u8`, `u16`, `u32`,
--   `sub8`, `sub16`, `sub32`); masks and shifts of bytes are quotients and remainders.
-- - A function that changes `struct context` is an `Action`: it returns the context beside its
--   result, also with an error, since what was stored stays.
-- - Local variables that the source leaves uninitialised, and buffers of the caller, are arguments
--   (`Locals`, `out`, `buf`).
-- - `options_loop` has fuel one above the length of its buffer: each round reads a byte at least.
--   `expand_loop` has fuel 257 for at most 255 rounds and the end of its loop.
-- - In EDHOC a pointer and its length are the list of the bytes between them, which the caller of
--   the API must provide; an output buffer with its length is the list of the bytes in it, and
--   `none` where a call may leave both as the caller passed them (EAD_1, EAD_4). A long
--   function is the sequence of a few definitions in its order. What `tx` and `rx` return may depend
--   on the messages that their party has sent.
-- - `suite_loop` runs for a number of rounds and says whether it has ended by then; 257 are enough
--   for at most 255 suites.
-- - The machine is little-endian, and but for `Mbed` the library is built for TinyCrypt and
--   compact25519, with the buffer sizes of EDHOC_BUF_SIZES_X509_CERT.
-- - What Mbed TLS keeps between calls is passed from call to call (`Stateful`).
--
-- Not modelled: the generated CBOR coders (src/cbor), which are parameters, EDHOC's two parties in
-- the build for Mbed TLS, debug output, samples and tests. The printing of arrays has no effect on
-- the state.
pub mod Coap
pub mod Context
pub mod Crypto
pub mod Edhoc
pub mod Exchange
pub mod Mbed
pub mod Memory
pub mod Options
pub mod OscoreOption
pub mod Prelude
pub mod Protect
pub mod Replay
pub mod Tests
pub mod Unprotect
