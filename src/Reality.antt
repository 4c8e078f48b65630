-- ===== src/Reality.antt =====
-- src/reality/ and src/reality_upstream.rs: the REALITY client's TLS 1.3. What the cryptography
-- crates compute is a parameter: an AEAD (`Aead`) and the hashes and X25519 (`Hashes`).
pub mod Record
pub mod Framing
pub mod KeySchedule
pub mod Stream
pub mod ServerHello
pub mod Handshake
pub mod Toy
mod Tests
use mini_vpn.Base.{ℕ, ◌+◌, ◌≡◌, Option, some, List, length}

-- `aes_gcm`, with the key first: what `encrypt` seals `decrypt` opens under the same key, nonce and
-- associated data, and the tag takes 16 bytes.
pub record Aead : Type 0 where
  pub encrypt : List ℕ → List ℕ → List ℕ → List ℕ → List ℕ
  pub decrypt : List ℕ → List ℕ → List ℕ → List ℕ → Option (List ℕ)
  pub decrypt-encrypt :
      (key nonce aad msg : List ℕ) → decrypt key nonce aad (encrypt key nonce aad msg) ≡ some msg
  pub length-encrypt :
      (key nonce aad msg : List ℕ) → length (encrypt key nonce aad msg) ≡ length msg + 16

-- `hkdf`, `hmac`, `sha2` and `x25519_dalek`.
pub record Hashes : Type 0 where
  pub hkdf_extract : List ℕ → List ℕ → List ℕ
  pub hkdf_expand : List ℕ → List ℕ → ℕ → List ℕ
  pub hmac_sha256 : List ℕ → List ℕ → List ℕ
  pub sha256 : List ℕ → List ℕ
  pub x25519 : List ℕ → List ℕ → List ℕ

-- The messages of `parse_server_hello` and its helpers, in the order of the source.
pub data ServerHelloFault : Type 0 where
  not_server_hello header_cut length_mismatch : ServerHelloFault
  legacy_version random_cut retry_request downgrade : ServerHelloFault
  session_id_cut session_id_echo cipher_suite_cut cipher_suite : ServerHelloFault
  compression_cut compression extensions_cut : ServerHelloFault
  no_versions versions_length selected_version : ServerHelloFault
  no_key_share key_share_cut key_share_group key_share_length : ServerHelloFault

-- The messages of the errors (`ClientError::Reality` and `io::Error`), and the panic of a sequence
-- number that overflows.
pub data Refusal : Type 0 where
  decrypt_failed : Refusal
  no_content_type : Refusal
  seq_overflow : Refusal
  record_too_long : Refusal
  alert_received : Option ℕ → Option ℕ → Refusal
  key_update_frame : Refusal
  key_update_request : Refusal
  truncated : Refusal
  connection_closed : Refusal
  write_zero : Refusal
  io_failed : Refusal
  body_too_long : Refusal
  zero_ecdhe : Refusal
  not_handshake : ℕ → Refusal
  unexpected_message : ℕ → Refusal
  unexpected_record : ℕ → Refusal
  no_certificate : Refusal
  finished_mac : Refusal
  out_of_fuel : Refusal
  certificate_refused : Refusal
  server_hello : ServerHelloFault → Refusal
