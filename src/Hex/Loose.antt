-- ===== src/Hex/Loose.antt =====
-- The decoder of the signature and of the shared secret against the decoders that throw.
use access_security_system_e.Common.{
  ℕ, ◌/◌, ◌%◌, ◌<◌, ◌≡◌, refl, ap, sym, ◌∙◌, Bool, true, none, some, List, [], ◌∷◌, length, arith,
  ◌==◌, if◌then◌else◌, All, inl, inr, Bool-cases, Option-cases, some-inj,
}
use access_security_system_e.Protocol.Codec.Inverse.{IsByte}
use access_security_system_e.CardId.{hex_char, to_hex, all_below_lem}
use access_security_system_e.Hex.{
  hex_nibble, loose_nibble, pair_byte, decode_pairs, loose_pairs, without_spaces, hex_to_bytes,
  hex_to_bytes_loose, bytes_to_hex,
}
use access_security_system_e.Hex.Strict.{pair_byte_lem, length-to_hex}

none-some {ℓ} : {A : Type ℓ} {a : A} → none ≡ some a → ⊥
none-some e = cc

cons_eq : {x y : ℕ} {xs ys : List ℕ} → x ≡ y → xs ≡ ys → x ∷ xs ≡ y ∷ ys
cons_eq p q = cc

loose_nibble-same : (c n : ℕ) → hex_nibble c ≡ some n → loose_nibble c ≡ n
unfolding hex_nibble loose_nibble
loose_nibble-same c n e = ground arith

loose_pairs-same : (s out : List ℕ) → decode_pairs s ≡ some out → loose_pairs s ≡ out
unfolding decode_pairs loose_pairs
loose_pairs-same [] out e = some-inj e
loose_pairs-same (h ∷ []) out e = absurd (none-some e)
loose_pairs-same (h ∷ (l ∷ rest)) out e = elim (Option-cases (hex_nibble h)) [
  | inl f ↦ absurd (none-some (rw (decode_pairs, f) at e))
  | inr (hi, f) ↦ elim (Option-cases (hex_nibble l)) [
    | inl g ↦ absurd (none-some (rw (decode_pairs, f, g) at e))
    | inr (lo, g) ↦ elim (Option-cases (decode_pairs rest)) [
      | inl k ↦ absurd (none-some (rw (decode_pairs, f, g, k) at e))
      | inr (more, k) ↦
          rw (loose_nibble-same h hi f, loose_nibble-same l lo g, loose_pairs-same rest more k)
            (some-inj (rw (decode_pairs, f, g, k) at e))
    ]
  ]
]

-- On a text without white space that the strict decoder accepts, the loose decoder gives the same
-- bytes.
pub hex_to_bytes_loose_same :
    (text out : List ℕ)
    → without_spaces text ≡ text
    → hex_to_bytes text ≡ some out
    → hex_to_bytes_loose text ≡ out
unfolding hex_to_bytes hex_to_bytes_loose
hex_to_bytes_loose_same text out w e =
    let plain : (if length text % 2 == 0 then decode_pairs text else none) ≡ some out =
      ap (λ t. if length t % 2 == 0 then decode_pairs t else none) (sym w) ∙ e in
    elim (Bool-cases (length text % 2 == 0)) [
      | inr f ↦ absurd (none-some (rw f at plain))
      | inl f ↦ rw (hex_to_bytes_loose, f) (loose_pairs-same text out (rw f at plain))
    ]

abbrev loose_right : ℕ → Bool
loose_right n = loose_nibble (hex_char n) == n

loose_nibble-hex_char : (n : ℕ) → n < 16 → loose_nibble (hex_char n) ≡ n
unfolding loose_nibble hex_char
loose_nibble-hex_char n h = ground (arith, all_below_lem 16 n loose_right refl h)

loose_pairs-to_hex : (xs : List ℕ) → All IsByte xs → loose_pairs (to_hex xs) ≡ xs
unfolding loose_pairs to_hex
loose_pairs-to_hex [] b = refl
loose_pairs-to_hex (x ∷ xs) b =
    cons_eq
      (ap (λ (k : ℕ). pair_byte k (loose_nibble (hex_char (x % 16))))
          (loose_nibble-hex_char (x / 16 % 16) (omega arith))
        ∙ (ap (pair_byte (x / 16 % 16)) (loose_nibble-hex_char (x % 16) (omega arith))
            ∙ (pair_byte_lem (x / 16 % 16) (x % 16) (omega arith) (omega arith)
                ∙ omega (arith, b.0))))
      (loose_pairs-to_hex xs b.1)

-- The loose decoder undoes the encoder.
pub hex_to_bytes_loose-to_hex : (xs : List ℕ) → All IsByte xs → hex_to_bytes_loose (to_hex xs) ≡ xs
unfolding hex_to_bytes_loose
hex_to_bytes_loose-to_hex xs b =
    let even : (length (to_hex xs) % 2 == 0) ≡ true = ground (arith, length-to_hex xs) in
    rw (hex_to_bytes_loose, even) (loose_pairs-to_hex xs b)

pub bytes_to_hex-same : (xs : List ℕ) → bytes_to_hex xs ≡ to_hex xs
unfolding bytes_to_hex to_hex
bytes_to_hex-same [] = refl
bytes_to_hex-same (x ∷ xs) = cons_eq refl (cons_eq refl (bytes_to_hex-same xs))
