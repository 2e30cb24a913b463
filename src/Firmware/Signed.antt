-- ===== src/Firmware/Signed.antt =====
-- The reader's signature against the server's check.
use Prim.Native.Nat.{bit_or}
use access_security_system_e.Common.{
  ℕ, zero, suc, ◌+◌, ◌*◌, ◌%◌, ◌<◌, ◌≡◌, refl, ap, sym, ◌∙◌, Bool, true, none, some, List, [], ◌∷◌,
  length, arith, ◌==◌, ==_iff, All,
}
use access_security_system_e.Protocol.Codec.Inverse.{IsByte}
use access_security_system_e.CardId.{to_hex, all_below, all_below_lem}
use access_security_system_e.Crypto.{Sodium, HasHmacLength}
use access_security_system_e.Hex.{loose_nibble, pair_byte, loose_pairs, hex_to_bytes_loose}
use access_security_system_e.Hex.Strict.{pair_byte_lem}
use access_security_system_e.Hex.Loose.{hex_to_bytes_loose-to_hex}
use access_security_system_e.Hw.{verify_hw_signature}
use access_security_system_e.Hw.Signature.{signed, verify_hw_signature_iff}
use access_security_system_e.Firmware.{
  Board, Settings, hex_nibble, hex_to_bytes_32, mac_hex, hmac_sha256_hex, signature,
}

-- mbedTLS computes the same HMAC-SHA-256 as libsodium, and it is bytes.
pub record HasSameHmac (board : Board) (lib : Sodium) : Type 0 where
  pub same_hmac : (key message : List ℕ) → board.md_hmac key message ≡ lib.hmac_sha256 key message
  pub hmac_bytes : (key message : List ℕ) → All IsByte (lib.hmac_sha256 key message)

hex_nibble-same : (c : ℕ) → hex_nibble c ≡ loose_nibble c
unfolding hex_nibble loose_nibble
hex_nibble-same c = ground arith

hex_nibble-lt : (c : ℕ) → hex_nibble c < 16
unfolding hex_nibble
hex_nibble-lt c = ground arith

abbrev or_right : ℕ → ℕ → Bool
or_right hi lo = bit_or (hi * 16 % 256) lo == hi * 16 + lo

or_pair : (hi lo : ℕ) → hi < 16 → lo < 16 → bit_or (hi * 16 % 256) lo ≡ pair_byte hi lo
or_pair hi lo h l =
    (==_iff _ _).0 (
      all_below_lem 16 lo (or_right hi)
        (all_below_lem 16 hi (λ i. all_below 16 (or_right i)) refl h) l)
    ∙ sym (pair_byte_lem hi lo h l)

cons_eq : {x y : ℕ} {xs ys : List ℕ} → x ≡ y → xs ≡ ys → x ∷ xs ≡ y ∷ ys
cons_eq p q = cc

hex_to_bytes_32-loose : (s : List ℕ) → hex_to_bytes_32 s ≡ loose_pairs s
unfolding hex_to_bytes_32 loose_pairs
hex_to_bytes_32-loose [] = refl
hex_to_bytes_32-loose (h ∷ []) = refl
hex_to_bytes_32-loose (h ∷ (l ∷ rest)) =
    cons_eq
      (or_pair (hex_nibble h) (hex_nibble l) (hex_nibble-lt h) (hex_nibble-lt l)
        ∙ (ap (λ (i : ℕ). pair_byte i (hex_nibble l)) (hex_nibble-same h)
            ∙ ap (λ (i : ℕ). pair_byte (loose_nibble h) i) (hex_nibble-same l)))
      (hex_to_bytes_32-loose rest)

length-loose_pairs : (n : ℕ) (s : List ℕ) → length s ≡ n + n → length (loose_pairs s) ≡ n
unfolding loose_pairs
length-loose_pairs zero [] h = refl
length-loose_pairs (suc n) [] h = absurd (omega arith)
length-loose_pairs n (c ∷ []) h = absurd (omega arith)
length-loose_pairs zero (h ∷ (l ∷ rest)) e = absurd (omega arith)
length-loose_pairs (suc n) (h ∷ (l ∷ rest)) e = ap suc (length-loose_pairs n rest (omega arith))

mac_hex-to_hex : (mac : List ℕ) → mac_hex mac ≡ to_hex mac
unfolding mac_hex to_hex
mac_hex-to_hex [] = refl
mac_hex-to_hex (b ∷ mac) = cons_eq refl (cons_eq refl (mac_hex-to_hex mac))

-- A reader and a server with the same secret of 64 characters agree: the reader signs every body,
-- and the server accepts the signature of it, where mbedTLS and libsodium compute the same HMAC of
-- 32 bytes.
pub signature_accepted :
    (lib : Sodium) (law : HasHmacLength lib) (board : Board) (same : HasSameHmac board lib)
    (cfg : Settings) (body : List ℕ)
    → length cfg.secret_hex ≡ 64
    → (sig : List ℕ) × (signature board cfg body ≡ some sig)
      × (verify_hw_signature lib true sig body cfg.secret_hex ≡ none)
unfolding signature hmac_sha256_hex hex_to_bytes_loose
signature_accepted lib law board same cfg body h =
    let secret = cfg.secret_hex in
    let key = hex_to_bytes_32 secret in
    let sig = hmac_sha256_hex board key (signed body) in
    let decoded : hex_to_bytes_loose secret ≡ loose_pairs secret = rw h refl in
    let keys : key ≡ hex_to_bytes_loose secret = hex_to_bytes_32-loose secret ∙ sym decoded in
    let mac = lib.hmac_sha256 (hex_to_bytes_loose secret) (signed body) in
    let hex : sig ≡ to_hex mac =
      mac_hex-to_hex (board.md_hmac key (signed body))
      ∙ ap to_hex (
          same.same_hmac key (signed body)
          ∙ ap (λ (k : List ℕ). lib.hmac_sha256 k (signed body)) keys) in
    (
      sig,
      rw ((==_iff (length secret) 64).1 h) refl,
      (verify_hw_signature_iff lib law true sig body secret).1 (
        refl,
        ap length decoded ∙ length-loose_pairs 32 secret h,
        ap hex_to_bytes_loose hex ∙ hex_to_bytes_loose-to_hex mac (same.hmac_bytes _ _),
      ),
    )
