-- ===== src/Crypto.antt =====
-- crypto_lib over libsodium. libsodium is a parameter: its primitives, and beside them the
-- documented facts that proofs name.
pub mod Hkdf
pub mod Aead
use access_security_system_e.Common.{ℕ, ◌≡◌, Option, none, some, List, length}

-- The primitives that crypto_lib calls. An AEAD decryption that fails authentication is `none`.
pub record Sodium : Type 0 where
  -- crypto_auth_hmacsha256: key, message
  pub hmac_sha256 : List ℕ → List ℕ → List ℕ
  -- crypto_aead_xchacha20poly1305_ietf_*_detached: key, nonce, additional data, text
  pub xchacha_encrypt : List ℕ → List ℕ → List ℕ → List ℕ → List ℕ × List ℕ
  pub xchacha_decrypt : List ℕ → List ℕ → List ℕ → List ℕ → List ℕ → Option (List ℕ)
  -- crypto_aead_chacha20poly1305_ietf_*_detached
  pub chacha_encrypt : List ℕ → List ℕ → List ℕ → List ℕ → List ℕ × List ℕ
  pub chacha_decrypt : List ℕ → List ℕ → List ℕ → List ℕ → List ℕ → Option (List ℕ)

-- An HMAC-SHA-256 has 32 bytes.
pub record HasHmacLength (s : Sodium) : Type 0 where
  pub hmac_length : (key message : List ℕ) → length (s.hmac_sha256 key message) ≡ 32

-- Decryption undoes encryption under the same key, nonce and additional data; a ciphertext is as
-- long as its plaintext, and a tag has 16 bytes.
pub record HasAead (s : Sodium) : Type 0 where
  pub xchacha_opens :
      (key nonce aad text : List ℕ)
      → s.xchacha_decrypt key nonce aad
          (s.xchacha_encrypt key nonce aad text).0
          (s.xchacha_encrypt key nonce aad text).1
        ≡ some text
  pub xchacha_length :
      (key nonce aad text : List ℕ) → length (s.xchacha_encrypt key nonce aad text).0 ≡ length text
  pub xchacha_tag :
      (key nonce aad text : List ℕ) → length (s.xchacha_encrypt key nonce aad text).1 ≡ 16
  pub chacha_opens :
      (key nonce aad text : List ℕ)
      → s.chacha_decrypt key nonce aad
          (s.chacha_encrypt key nonce aad text).0
          (s.chacha_encrypt key nonce aad text).1
        ≡ some text
  pub chacha_length :
      (key nonce aad text : List ℕ) → length (s.chacha_encrypt key nonce aad text).0 ≡ length text
  pub chacha_tag :
      (key nonce aad text : List ℕ) → length (s.chacha_encrypt key nonce aad text).1 ≡ 16
