-- ===== src/CardId.antt =====
-- access_decision/src/card_id_hasher.cpp: the hexadecimal HMAC under which a card is stored.
use access_security_system_e.Common.{
  ℕ, ◌/◌, ◌%◌, ◌<◌, ◌≡◌, refl, ap, sym, ◌∙◌, zero, suc, Bool, true, ◌&&◌, ◌==◌, ◌-◌, ltb,
  if◌then◌else◌, ==_iff, Bool-cases, inl, inr, Option, none, some, List, [], ◌∷◌, arith, drop, All,
}
use access_security_system_e.Common.Text.{codes}
use access_security_system_e.Protocol.Codec.Inverse.{IsByte}
use access_security_system_e.Crypto.{Sodium}

abbrev first : List ℕ → ℕ
first [] = 0
first (x ∷ xs) = x

-- kHexChars[i]
unfoldable pub hex_char : ℕ → ℕ
hex_char i = first (drop i (codes "0123456789abcdef"))

-- CardIdHasher::toHex
unfoldable pub to_hex : List ℕ → List ℕ
to_hex [] = []
to_hex (b ∷ bytes) = hex_char (b / 16 % 16) ∷ (hex_char (b % 16) ∷ to_hex bytes)

-- CardIdHasher::hmacHex; `none` is the exception for an empty card id.
unfoldable pub hmac_hex : Sodium → List ℕ → List ℕ → Option (List ℕ)
hmac_hex lib pepper [] = none
hmac_hex lib pepper (b ∷ card_id) = some (to_hex (lib.hmac_sha256 pepper (b ∷ card_id)))

abbrev unhex : ℕ → ℕ
unhex c = if ltb c 58 then c - 48 else c - 87

abbrev pub all_below : ℕ → (ℕ → Bool) → Bool
all_below zero p = true
all_below (suc n) p = p n && all_below n p

pub all_below_lem : (n i : ℕ) (p : ℕ → Bool) → all_below n p ≡ true → i < n → p i ≡ true
all_below_lem zero i p h l = absurd (omega arith)
all_below_lem (suc n) i p h l = elim (Bool-cases (i == n)) [
  | inl e ↦ ap p ((==_iff i n).0 e) ∙ ground (arith, h)
  | inr e ↦ all_below_lem n i p (ground (arith, h)) (ground arith)
]

-- `unhex` reads the characters of the alphabet.
pub unhex-hex_char : (i : ℕ) → i < 16 → unhex (hex_char i) ≡ i
unfolding hex_char
unhex-hex_char i h =
    (==_iff (unhex (hex_char i)) i).0 (all_below_lem 16 i (λ j. unhex (hex_char j) == j) refl h)

pub hex_char-injective : (i j : ℕ) → i < 16 → j < 16 → hex_char i ≡ hex_char j → i ≡ j
hex_char-injective i j h k e = sym (unhex-hex_char i h) ∙ (ap unhex e ∙ unhex-hex_char j k)

byte_digits : (x y : ℕ) → x < 256 → y < 256 → x / 16 % 16 ≡ y / 16 % 16 → x % 16 ≡ y % 16 → x ≡ y
byte_digits x y h k d e = omega arith

head_eq : (x y : ℕ) (xs ys : List ℕ) → x ∷ xs ≡ y ∷ ys → (x ≡ y) × (xs ≡ ys)
head_eq x y xs ys e = (cc, cc)

cons_eq : {x y : ℕ} {xs ys : List ℕ} → x ≡ y → xs ≡ ys → x ∷ xs ≡ y ∷ ys
cons_eq p q = cc

-- Different byte strings have different hexadecimal texts.
pub to_hex-injective :
    (xs ys : List ℕ) → All IsByte xs → All IsByte ys → to_hex xs ≡ to_hex ys → xs ≡ ys
unfolding to_hex
to_hex-injective [] [] p q h = refl
to_hex-injective [] (y ∷ ys) p q h = cc
to_hex-injective (x ∷ xs) [] p q h = cc
to_hex-injective (x ∷ xs) (y ∷ ys) p q h =
    let (high, more) = head_eq _ _ _ _ h in
    let (low, rest) = head_eq _ _ _ _ more in
    let digit = λ (i j : ℕ). hex_char-injective (i % 16) (j % 16) (omega arith) (omega arith) in
    let same : x ≡ y = byte_digits x y p.0 q.0 (digit (x / 16) (y / 16) high) (digit x y low) in
    cons_eq same (to_hex-injective xs ys p.1 q.1 rest)
