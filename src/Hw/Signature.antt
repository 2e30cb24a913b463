-- ===== src/Hw/Signature.antt =====
-- When the endpoint accepts a signature.
use access_security_system_e.Common.{
  ℕ, ◌≡◌, ◌↔◌, refl, ap, sym, ◌∙◌, Bool, true, false, not, Option, none, some, List, [], ◌∷◌, ◌++◌,
  String, length, arith, ◌==◌, ==_iff, if◌then◌else◌, bytes_eq, bytes_eq_refl, bytes_eq_sound,
}
use access_security_system_e.Common.Text.{codes}
use access_security_system_e.Crypto.{Sodium, HasHmacLength}
use access_security_system_e.Hex.{hex_to_bytes_loose, loose_pairs}
use access_security_system_e.Hw.{verify_hmac, verify_hw_signature}

none-some {ℓ} : {A : Type ℓ} {a : A} → some a ≡ none → ⊥
none-some e = cc

true-false : true ≡ false → ⊥
true-false e = cc

empty_text : (s : List ℕ) → length s ≡ 0 → length (hex_to_bytes_loose s) ≡ 0
unfolding hex_to_bytes_loose loose_pairs
empty_text [] h = refl
empty_text (c ∷ s) h = absurd (omega arith)

-- A text that decodes to 32 bytes is not empty.
given : (s : List ℕ) → length (hex_to_bytes_loose s) ≡ 32 → (length s == 0) ≡ false
given [] h = absurd (omega (arith, h, empty_text [] refl))
given (c ∷ s) h = ground arith

-- The order of the checks.
abbrev checks : Bool → Bool → Bool → Bool → Bool → Bool → Option String
checks no_secret ready no_signature key_ok sig_ok same =
    if no_secret
    then some "misconfigured"
    else if not ready
    then some "sodium_init_failed"
    else if no_signature
    then some "missing_signature"
    else if not key_ok
    then some "bad_hw_secret_len"
    else if not sig_ok
    then some "bad_signature_len"
    else if not same
    then some "bad_signature"
    else none

checks_inv : (a r b k s v : Bool) → checks a r b k s v ≡ none → (r ≡ true) × (k ≡ true) × (v ≡ true)
checks_inv true r b k s v h = absurd (none-some h)
checks_inv false false b k s v h = absurd (none-some h)
checks_inv false true true k s v h = absurd (none-some h)
checks_inv false true false false s v h = absurd (none-some h)
checks_inv false true false true false v h = absurd (none-some h)
checks_inv false true false true true false h = absurd (none-some h)
checks_inv false true false true true true h = (refl, refl, refl)

-- The text that is signed: the request line and the body.
abbrev pub signed : List ℕ → List ℕ
signed body = codes "POST /api/hw/uid\n" ++ body

module _ (lib : Sodium) (law : HasHmacLength lib) where
  -- The endpoint accepts a request exactly where libsodium is ready, the secret decodes to 32 bytes
  -- and the signature to the HMAC of the request line and the body under them; HMACs have 32 bytes.
  -- A character that is no hexadecimal digit is decoded like a 0.
  pub verify_hw_signature_iff :
      (ready : Bool) (signature_hex body secret_hex : List ℕ)
      → (verify_hw_signature lib ready signature_hex body secret_hex ≡ none) ↔ (
          (ready ≡ true)
          × (length (hex_to_bytes_loose secret_hex) ≡ 32)
          × (hex_to_bytes_loose signature_hex
              ≡ lib.hmac_sha256 (hex_to_bytes_loose secret_hex) (signed body)))
  unfolding verify_hw_signature verify_hmac
  verify_hw_signature_iff ready signature_hex body secret_hex =
      let key = hex_to_bytes_loose secret_hex in
      let sig = hex_to_bytes_loose signature_hex in
      let mac = lib.hmac_sha256 key (signed body) in
      (
        (λ h.
            let (r, k, same) = checks_inv _ ready _ (length key == 32) _ (bytes_eq mac sig) h in
            (r, (==_iff (length key) 32).0 k, sym (bytes_eq_sound mac sig same))),
        (λ (r, k, same).
            let n : length sig ≡ 32 = ap length same ∙ law.hmac_length key (signed body) in
            rw
              (
                verify_hw_signature,
                given secret_hex k,
                r,
                given signature_hex n,
                (==_iff (length key) 32).1 k,
                (==_iff (length sig) 32).1 n,
                verify_hmac,
                ap (bytes_eq mac) same ∙ bytes_eq_refl mac,
              )
              refl),
      )
