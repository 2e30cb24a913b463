-- ===== src/Crypto/Aead.antt =====
-- crypto_lib: secure_aead.hpp, secure_aead.cpp and nonce_generator.cpp. The random nonce prefix is
-- an argument of `derive_nonce`.
use access_security_system_e.Common.{
  ℕ, ◌-◌, ◌≤◌, ◌≡◌, Option, some, List, ◌++◌, arith, length, take, replicate, length-append,
  length-take_of_le, length-replicate,
}
use access_security_system_e.Protocol.Codec.{le64}
use access_security_system_e.Crypto.{Sodium, HasHmacLength, HasAead}

pub data CipherMode : Type 0 where
  xchacha20_poly1305 chacha20_poly1305 : CipherMode

pub record Ciphertext : Type 0 where
  pub ct : List ℕ
  pub tag : List ℕ
  pub nonce : List ℕ

-- nonceLenFor
unfoldable pub nonce_len_for : CipherMode → ℕ
nonce_len_for xchacha20_poly1305 = 24
nonce_len_for chacha20_poly1305 = 12

-- SecureAead::deriveNonce: 24 bytes, of which the second cipher uses 12.
unfoldable pub derive_nonce : CipherMode → List ℕ → ℕ → List ℕ
derive_nonce xchacha20_poly1305 prefix seq = take 16 prefix ++ le64 seq
derive_nonce chacha20_poly1305 prefix seq = take 4 prefix ++ (le64 seq ++ replicate 12 0)

module _ (lib : Sodium) where
  -- sealWithNonce over encryptDetached; the second cipher reads the first 12 bytes of the nonce.
  unfoldable pub seal_with_nonce : CipherMode → List ℕ → List ℕ → List ℕ → List ℕ → Ciphertext
  seal_with_nonce xchacha20_poly1305 key text aad nonce =
      let out = lib.xchacha_encrypt key nonce aad text in
      record { ct = out.0; tag = out.1; nonce = nonce }
  seal_with_nonce chacha20_poly1305 key text aad nonce =
      let out = lib.chacha_encrypt key (take 12 nonce) aad text in
      record { ct = out.0; tag = out.1; nonce = nonce }

  -- openWithNonce over decryptDetached; `none` is the exception "AEAD auth failed".
  unfoldable pub open_with_nonce :
      CipherMode → List ℕ → List ℕ → List ℕ → List ℕ → List ℕ → Option (List ℕ)
  open_with_nonce xchacha20_poly1305 key ct tag aad nonce = lib.xchacha_decrypt key nonce aad ct tag
  open_with_nonce chacha20_poly1305 key ct tag aad nonce =
      lib.chacha_decrypt key (take 12 nonce) aad ct tag

  unfoldable pub seal_with_seq : CipherMode → List ℕ → List ℕ → List ℕ → List ℕ → ℕ → Ciphertext
  unfolding seal_with_nonce
  seal_with_seq mode prefix key text aad seq =
      seal_with_nonce mode key text aad (derive_nonce mode prefix seq)

  -- HmacNonceGenerator::generate
  unfoldable pub generate : CipherMode → List ℕ → List ℕ → List ℕ
  generate mode nonce_key context =
      let n = nonce_len_for mode in
      take n (lib.hmac_sha256 nonce_key context) ++ replicate (24 - n) 0

  -- Under the laws of the two ciphers, what was sealed is opened again with the same key,
  -- additional data and nonce; the ciphertext is as long as the text, and the tag has 16 bytes.
  pub open-seal :
      (law : HasAead lib) (mode : CipherMode) (key text aad nonce : List ℕ)
      → let c = seal_with_nonce mode key text aad nonce in
        (open_with_nonce mode key c.ct c.tag aad nonce ≡ some text)
        × (length c.ct ≡ length text)
        × (length c.tag ≡ 16)
  unfolding seal_with_nonce open_with_nonce
  open-seal law xchacha20_poly1305 key text aad nonce = (
    law.xchacha_opens key nonce aad text,
    law.xchacha_length key nonce aad text,
    law.xchacha_tag key nonce aad text,
  )
  open-seal law chacha20_poly1305 key text aad nonce = (
    law.chacha_opens key (take 12 nonce) aad text,
    law.chacha_length key (take 12 nonce) aad text,
    law.chacha_tag key (take 12 nonce) aad text,
  )

  length-pad :
      (n : ℕ) (xs : List ℕ)
      → n ≤ 24
      → length xs ≡ 32
      → length (take n xs ++ replicate (24 - n) 0) ≡ 24
  length-pad n xs h k = omega (
    arith,
    length-append (take n xs) (replicate (24 - n) 0),
    length-take_of_le n xs (omega arith),
    length-replicate {A = ℕ} (24 - n) 0,
  )

  -- A generated nonce has the 24 bytes of a header's nonce.
  pub length-generate :
      (law : HasHmacLength lib) (mode : CipherMode) (key context : List ℕ)
      → length (generate mode key context) ≡ 24
  unfolding generate nonce_len_for
  length-generate law xchacha20_poly1305 key context =
      length-pad 24 _ (omega arith) (law.hmac_length key context)
  length-generate law chacha20_poly1305 key context =
      length-pad 12 _ (omega arith) (law.hmac_length key context)
