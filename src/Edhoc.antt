-- ===== src/Edhoc.antt =====
-- EDHOC (src/edhoc), as it is built for TinyCrypt and compact25519, with the buffer sizes of
-- EDHOC_BUF_SIZES_X509_CERT.
--
-- A pointer and its length are the list of the bytes between them, as the caller of the API must
-- provide them; an output buffer with its length is the list of the bytes in it. A string that a
-- CBOR decoder returns points into the decoded buffer, and is a `ByteArray`. An `int` or an
-- `int32_t` is its 32 bits, as a number.
pub mod Suites
pub mod Coders
pub mod Wrapper
pub mod Keys
pub mod Transcript
pub mod Authentication
pub mod Plaintext
pub mod Ciphertext
pub mod Credentials
pub mod Messages
pub mod Initiator
pub mod Responder
pub mod Limits
pub mod Support
pub mod Lookup
pub mod Verify
pub mod Recover
pub mod Agreement
pub mod Session
pub mod Strings
pub mod Runs
pub mod Guards
pub mod Opening
pub mod Delivery
pub mod Closing
pub mod Overflow
pub mod Secrets
