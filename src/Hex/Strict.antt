-- ===== src/Hex/Strict.antt =====
-- What the decoders that throw accept: the hexadecimal digits, of either case, of the bytes.
use mathlib.Core.Path.{subst}
use access_security_system_e.Common.{
  ℕ, ◌+◌, ◌*◌, ◌/◌, ◌%◌, ◌<◌, ◌≡◌, ◌↔◌, refl, ap, sym, ◌∙◌, Bool, true, ◌&&◌, ◌||◌, Option, none,
  some, List, [], ◌∷◌, map, length, arith, leb, ltb, ◌==◌, ==_iff, if◌then◌else◌, All, inl, inr,
  Bool-cases, Option-cases, some-inj, ltb→lt,
}
use access_security_system_e.Protocol.Codec.Inverse.{IsByte}
use access_security_system_e.Common.Rows.{remove_rows}
use access_security_system_e.CardId.{hex_char, to_hex, all_below, all_below_lem, hex_char-injective}
use access_security_system_e.Hex.{
  hex_nibble, pair_byte, decode_pairs, is_space, without_spaces, parse_hex,
}

-- std::tolower of the "C" locale.
unfoldable pub lower : ℕ → ℕ
lower c = if leb 65 c && leb c 90 then c + 32 else c

abbrev is_value : ℕ → Option ℕ → Bool
is_value c none = true
is_value c (some n) = ltb n 16 && (hex_char n == lower c)

abbrev reads_right : ℕ → Bool
reads_right c = is_value c (hex_nibble c)

reads_right_lem : (c : ℕ) → c < 256 → reads_right c ≡ true
unfolding hex_nibble hex_char lower
reads_right_lem c h = all_below_lem 256 c reads_right refl h

hex_nibble_sound : (c n : ℕ) → c < 256 → hex_nibble c ≡ some n → (n < 16) × (lower c ≡ hex_char n)
hex_nibble_sound c n h e =
    let t : (ltb n 16 && (hex_char n == lower c)) ≡ true =
      subst (λ o. is_value c o ≡ true) e (reads_right_lem c h) in
    (ltb→lt n 16 (ground arith), sym ((==_iff (hex_char n) (lower c)).0 (ground arith)))

abbrev is_digit : ℕ → Bool
is_digit c = (leb 48 c && leb c 57) || (leb 97 c && leb c 102)

hex_char-is_digit : (n : ℕ) → n < 16 → is_digit (hex_char n) ≡ true
unfolding hex_char
hex_char-is_digit n h = all_below_lem 16 n (λ i. is_digit (hex_char i)) refl h

hex_nibble_digit : (c : ℕ) → is_digit (lower c) ≡ true → hex_nibble c ≡ none → ⊥
unfolding hex_nibble lower
hex_nibble_digit c d e = ground arith

hex_nibble_complete : (c n : ℕ) → c < 256 → n < 16 → lower c ≡ hex_char n → hex_nibble c ≡ some n
hex_nibble_complete c n h l e = elim (Option-cases (hex_nibble c)) [
  | inl f ↦ absurd (hex_nibble_digit c (ap is_digit e ∙ hex_char-is_digit n l) f)
  | inr (k, f) ↦
      let (small, same) = hex_nibble_sound c k h f in
      f ∙ ap some (hex_char-injective k n small l (sym same ∙ e))
]

abbrev pair_right : ℕ → ℕ → Bool
pair_right hi lo = pair_byte hi lo == hi * 16 + lo

pub pair_byte_lem : (hi lo : ℕ) → hi < 16 → lo < 16 → pair_byte hi lo ≡ hi * 16 + lo
pair_byte_lem hi lo h l = (==_iff _ _).0 (
    all_below_lem 16 lo (pair_right hi)
      (all_below_lem 16 hi (λ i. all_below 16 (pair_right i)) refl h) l)

-- The value of a pair of digits, and the digits of a byte.
pair_value :
    (h l hi lo b : ℕ)
    → h < 256
    → l < 256
    → hex_nibble h ≡ some hi
    → hex_nibble l ≡ some lo
    → pair_byte hi lo ≡ b
    → (b < 256) × (lower h ≡ hex_char (b / 16 % 16)) × (lower l ≡ hex_char (b % 16))
pair_value h l hi lo b ph pl eh el e =
    let (small, same) = hex_nibble_sound h hi ph eh in
    let (small', same') = hex_nibble_sound l lo pl el in
    let sum : hi * 16 + lo ≡ b = sym (pair_byte_lem hi lo small small') ∙ e in
    let high : hi ≡ b / 16 % 16 = omega arith in
    let low : lo ≡ b % 16 = omega arith in
    (omega arith, same ∙ ap hex_char high, same' ∙ ap hex_char low)

value_pair : (b : ℕ) → b < 256 → pair_byte (b / 16 % 16) (b % 16) ≡ b
value_pair b h = pair_byte_lem (b / 16 % 16) (b % 16) (omega arith) (omega arith) ∙ omega arith

cons_inj : {x y : ℕ} {xs ys : List ℕ} → x ∷ xs ≡ y ∷ ys → (x ≡ y) × (xs ≡ ys)
cons_inj e = (cc, cc)

cons_eq : {x y : ℕ} {xs ys : List ℕ} → x ≡ y → xs ≡ ys → x ∷ xs ≡ y ∷ ys
cons_eq p q = cc

nil_cons : {x : ℕ} {xs : List ℕ} → [] ≡ x ∷ xs → ⊥
nil_cons e = cc

none-some {ℓ} : {A : Type ℓ} {a : A} → none ≡ some a → ⊥
none-some e = cc

decode_pairs_sound :
    (s out : List ℕ)
    → All IsByte s
    → decode_pairs s ≡ some out
    → All IsByte out × (map lower s ≡ to_hex out)
unfolding decode_pairs to_hex
decode_pairs_sound [] out b e =
    subst (λ o. All IsByte o × (map lower [] ≡ to_hex o)) (some-inj e) (tt, refl)
decode_pairs_sound (h ∷ []) out b e = absurd (none-some e)
decode_pairs_sound (h ∷ (l ∷ rest)) out b e = elim (Option-cases (hex_nibble h)) [
  | inl f ↦ absurd (none-some (rw (decode_pairs, f) at e))
  | inr (hi, f) ↦ elim (Option-cases (hex_nibble l)) [
    | inl g ↦ absurd (none-some (rw (decode_pairs, f, g) at e))
    | inr (lo, g) ↦ elim (Option-cases (decode_pairs rest)) [
      | inl k ↦ absurd (none-some (rw (decode_pairs, f, g, k) at e))
      | inr (more, k) ↦
          let (bytes, same) = decode_pairs_sound rest more b.1.1 k in
          let (small, high, low) = pair_value h l hi lo (pair_byte hi lo) b.0 b.1.0 f g refl in
          subst (λ o. All IsByte o × (map lower (h ∷ (l ∷ rest)) ≡ to_hex o))
            (some-inj (rw (decode_pairs, f, g, k) at e))
            ((small, bytes), cons_eq high (cons_eq low same))
    ]
  ]
]

decode_pairs_complete :
    (s out : List ℕ)
    → All IsByte s
    → All IsByte out
    → map lower s ≡ to_hex out
    → decode_pairs s ≡ some out
unfolding decode_pairs to_hex
decode_pairs_complete [] [] b o e = refl
decode_pairs_complete [] (x ∷ out) b o e = cc
decode_pairs_complete (h ∷ s) [] b o e = cc
decode_pairs_complete (h ∷ []) (x ∷ out) b o e = absurd (nil_cons ((cons_inj e).1))
decode_pairs_complete (h ∷ (l ∷ s)) (x ∷ out) b o e =
    let (high, more) = cons_inj e in
    let (low, same) = cons_inj more in
    rw
      (
        decode_pairs,
        hex_nibble_complete h (x / 16 % 16) b.0 (omega arith) high,
        hex_nibble_complete l (x % 16) b.1.0 (omega arith) low,
        decode_pairs_complete s out b.1.1 o.1 same,
      )
      (ap some (cons_eq (value_pair x o.0) refl))

bytes-without_spaces : (s : List ℕ) → All IsByte s → All IsByte (without_spaces s)
unfolding without_spaces remove_rows
bytes-without_spaces [] b = tt
bytes-without_spaces (c ∷ s) b = elim (Bool-cases (is_space c)) [
  | inl e ↦ rw (without_spaces, remove_rows, e) (bytes-without_spaces s b.1)
  | inr e ↦ rw (without_spaces, remove_rows, e) (b.0, bytes-without_spaces s b.1)
]

pub length-to_hex : (xs : List ℕ) → length (to_hex xs) ≡ 2 * length xs
unfolding to_hex
length-to_hex [] = refl
length-to_hex (x ∷ xs) = omega (arith, length-to_hex xs)

length-lower : (xs : List ℕ) → length (map lower xs) ≡ length xs
length-lower [] = refl
length-lower (x ∷ xs) = omega (arith, length-lower xs)

-- The reader of key files accepts a text of bytes with the result `key` exactly where the text,
-- without its white space and in lower case, is the hexadecimal text of `key`, and `key` is 32
-- bytes.
pub parse_hex_iff :
    (text key : List ℕ)
    → All IsByte text
    → (parse_hex text ≡ some key)
      ↔ ((length key ≡ 32) × All IsByte key × (map lower (without_spaces text) ≡ to_hex key))
unfolding parse_hex
parse_hex_iff text key b =
    let hex = without_spaces text in
    let small : All IsByte hex = bytes-without_spaces text b in
    (
      (λ h. elim (Bool-cases (length hex == 64)) [
        | inr e ↦ absurd (none-some (rw (parse_hex, e) at h))
        | inl e ↦
            let (bytes, same) = decode_pairs_sound hex key small (rw (parse_hex, e) at h) in
            let n : length (map lower hex) ≡ length (to_hex key) = ap length same in
            (
              omega (arith, n, length-lower hex, length-to_hex key, (==_iff (length hex) 64).0 e),
              bytes,
              same,
            )
      ]),
      (λ (k, bytes, same).
          let n : length (map lower hex) ≡ length (to_hex key) = ap length same in
          let e : length hex ≡ 64 = omega (arith, n, length-lower hex, length-to_hex key, k) in
          rw (parse_hex, (==_iff (length hex) 64).1 e)
            (decode_pairs_complete hex key small bytes same)),
    )
