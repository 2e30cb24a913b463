-- ===== src/Protocol/Codec/Inverse.antt =====
-- Reading and writing little-endian integers are inverse to one another.
use Prim.Native.Nat.{bit_or}
use native.Mathlib.Nat.{mod-eq_of_lt}
use access_security_system_e.Common.{
  ℕ, ◌+◌, ◌*◌, ◌%◌, ◌^◌, ◌<◌, ◌≡◌, refl, ap, sym, ◌∙◌, some, List, [], ◌∷◌, ◌++◌, arith, length,
  drop, All, some-inj,
}
use access_security_system_e.Common.Bits.{bit_or-disjoint, or_byte}
use access_security_system_e.Protocol.Codec.{
  u32_mod, u64_mod, byte_at, le32, le64, get_le32, get_le64,
}

pub length-le32 : (v : ℕ) → length (le32 v) ≡ 4
unfolding le32
length-le32 v = refl

pub length-le64 : (v : ℕ) → length (le64 v) ≡ 8
unfolding le64
length-le64 v = refl

pub drop-le32 : (v : ℕ) (p : List ℕ) → drop 4 (le32 v ++ p) ≡ p
unfolding le32
drop-le32 v p = refl

pub drop-le64 : (v : ℕ) (p : List ℕ) → drop 8 (le64 v ++ p) ≡ p
unfolding le64
drop-le64 v p = refl

or_step : (k v acc : ℕ) → acc ≡ v % 2 ^ k → bit_or acc (byte_at v k * 2 ^ k) ≡ v % 2 ^ (k + 8)
or_step k v acc h = ap (λ (t : ℕ). bit_or t (byte_at v k * 2 ^ k)) h ∙ or_byte k v

pub get_le32-le32 : (v : ℕ) (p : List ℕ) → v < u32_mod → get_le32 (le32 v ++ p) ≡ some v
unfolding get_le32 le32
get_le32-le32 v p h =
    let low : byte_at v 0 ≡ v % 2 ^ 8 = omega arith in
    ap some (or_step 24 v _ (or_step 16 v _ (or_step 8 v _ low)) ∙ mod-eq_of_lt h)

pub get_le64-le64 : (v : ℕ) (p : List ℕ) → v < u64_mod → get_le64 (le64 v ++ p) ≡ some v
unfolding get_le64 le64
get_le64-le64 v p h =
    let none_yet : 0 ≡ v % 2 ^ 0 = omega arith in
    let low_half = or_step 24 v _ (or_step 16 v _ (or_step 8 v _ (or_step 0 v _ none_yet))) in
    ap some
      (or_step 56 v _ (or_step 48 v _ (or_step 40 v _ (or_step 32 v _ low_half))) ∙ mod-eq_of_lt h)

-- A byte on top of `k` bits.
push_byte : (k acc b s : ℕ) → acc ≡ s → s < 2 ^ k → bit_or acc (b * 2 ^ k) ≡ s + b * 2 ^ k
push_byte k acc b s e h = ap (λ (t : ℕ). bit_or t (b * 2 ^ k)) e ∙ bit_or-disjoint k s b h

abbrev pub IsByte : ℕ → Type 0
IsByte b = b < 256

abbrev pub sum_le32 : ℕ → ℕ → ℕ → ℕ → ℕ
sum_le32 a b c d = a + b * 2 ^ 8 + c * 2 ^ 16 + d * 2 ^ 24

get_le32-sum :
    (a b c d : ℕ) (p : List ℕ)
    → IsByte a
    → IsByte b
    → IsByte c
    → IsByte d
    → get_le32 (a ∷ b ∷ c ∷ d ∷ p) ≡ some (sum_le32 a b c d)
unfolding get_le32
get_le32-sum a b c d p ha hb hc hd = ap some (
    push_byte 24 _ d _ (push_byte 16 _ c _ (push_byte 8 a b a refl ha) (omega arith)) (omega arith))

le32-sum :
    (a b c d : ℕ)
    → IsByte a
    → IsByte b
    → IsByte c
    → IsByte d
    → le32 (sum_le32 a b c d) ≡ a ∷ b ∷ c ∷ d ∷ []
unfolding le32
le32-sum a b c d ha hb hc hd = ground arith

read_sum_le32 :
    (a b c d v : ℕ)
    → IsByte a
    → IsByte b
    → IsByte c
    → IsByte d
    → sum_le32 a b c d ≡ v
    → (le32 v ≡ a ∷ b ∷ c ∷ d ∷ []) × (v < u32_mod)
read_sum_le32 a b c d v ha hb hc hd e = rw (← e) (le32-sum a b c d ha hb hc hd, omega arith)

-- What is read is what was written: the bytes read are the encoding of the number.
pub le32-get_le32 :
    (p : List ℕ) (v : ℕ)
    → All IsByte p
    → get_le32 p ≡ some v
    → (le32 v ++ drop 4 p ≡ p) × (v < u32_mod)
le32-get_le32 (a ∷ b ∷ c ∷ d ∷ p) v (ha, (hb, (hc, (hd, hp)))) e =
    let (bytes, range) =
      read_sum_le32 a b c d v ha hb hc hd
        (some-inj (sym (get_le32-sum a b c d p ha hb hc hd) ∙ e)) in
    (ap (λ (l : List ℕ). l ++ p) bytes, range)
le32-get_le32 _ v h e = unfold get_le32 in cc

abbrev sum_le64 : ℕ → ℕ → ℕ → ℕ → ℕ → ℕ → ℕ → ℕ → ℕ
sum_le64 a b c d e f g h =
    a + b * 2 ^ 8 + c * 2 ^ 16 + d * 2 ^ 24 + e * 2 ^ 32 + f * 2 ^ 40 + g * 2 ^ 48 + h * 2 ^ 56

module _ (a b c d e f g h : ℕ) (ha : IsByte a) (hb : IsByte b) (hc : IsByte c) (hd : IsByte d)
    (he : IsByte e) (hf : IsByte f) (hg : IsByte g) (hh : IsByte h) where
  get_le64-sum :
      (p : List ℕ) → get_le64 (a ∷ b ∷ c ∷ d ∷ e ∷ f ∷ g ∷ h ∷ p) ≡ some (sum_le64 a b c d e f g h)
  unfolding get_le64
  get_le64-sum p =
      let low =
        push_byte 24 _ d _
          (push_byte 16 _ c _
            (push_byte 8 _ b _ (push_byte 0 0 a 0 refl (omega arith)) (omega arith)) (omega arith))
          (omega arith) in
      ap some (
        push_byte 56 _ h _
          (push_byte 48 _ g _
            (push_byte 40 _ f _ (push_byte 32 _ e _ low (omega arith)) (omega arith)) (omega arith))
          (omega arith)
        ∙ omega arith)

  le64-sum :
      (v : ℕ)
      → sum_le64 a b c d e f g h ≡ v
      → (le64 v ≡ a ∷ b ∷ c ∷ d ∷ e ∷ f ∷ g ∷ h ∷ []) × (v < u64_mod)
  unfolding le64
  le64-sum v q = rw (← q) (ground arith, omega arith)

pub le64-get_le64 :
    (p : List ℕ) (v : ℕ)
    → All IsByte p
    → get_le64 p ≡ some v
    → (le64 v ++ drop 8 p ≡ p) × (v < u64_mod)
le64-get_le64 (a ∷ b ∷ c ∷ d ∷ e ∷ f ∷ g ∷ h ∷ p) v
      (ha, (hb, (hc, (hd, (he, (hf, (hg, (hh, hp)))))))) q =
    let (bytes, range) =
      le64-sum a b c d e f g h ha hb hc hd he hf hg hh v
        (some-inj (sym (get_le64-sum a b c d e f g h ha hb hc hd he hf hg hh p) ∙ q)) in
    (ap (λ (l : List ℕ). l ++ p) bytes, range)
le64-get_le64 _ v h e = unfold get_le64 in cc
