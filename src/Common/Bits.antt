-- ===== src/Common/Bits.antt =====
-- `bit_or` of numbers with no binary digit in common is their sum: the `|` of shifted bytes.
use Prim.Native.Nat.{
  ℕ, zero, suc, ◌+◌, ◌*◌, ◌/◌, ◌%◌, ◌^◌, ◌≤◌, ◌<◌, max, bit_or, digits, bit_or-bitwise,
}
use mathlib.Core.Path.{◌≡◌, refl, ap, sym, ◌∙◌}
use native.Mathlib.Nat.{
  pow-suc, mod-lt, mod-eq-sub-mul-div, div-mul-le_self, div-div-eq-div-mul, div-add-mod,
}
use native.Mathlib.Numerals.{towards_suc}
use native.Mathlib.Omega.{arith}

-- Any count of digits that bounds the first number gives the same result.
module _ (z : ℕ → ℕ) (f : ℕ → ℕ → ℕ) where
  digits_enough : (x n m y : ℕ) → x ≤ n → x ≤ m → digits z f n x y ≡ digits z f m x y
  digits_enough zero zero zero y hn hm = refl
  digits_enough zero zero (suc m) y hn hm = refl
  digits_enough zero (suc n) zero y hn hm = refl
  digits_enough zero (suc n) (suc m) y hn hm = refl
  digits_enough (suc x) zero m y hn hm = absurd (omega arith)
  digits_enough (suc x) (suc n) zero y hn hm = absurd (omega arith)
  digits_enough (suc x) (suc n) (suc m) y hn hm =
      ap (λ d. d * 2 + f (suc x % 2) (y % 2))
        (digits_enough (suc x / 2) n m (y / 2) (omega arith) (omega arith))

zero-bit_or : (y : ℕ) → bit_or 0 y ≡ y
zero-bit_or y = bit_or-bitwise 0 y

bit_or-halve : (x y : ℕ) → bit_or x y ≡ bit_or (x / 2) (y / 2) * 2 + max (x % 2) (y % 2)
bit_or-halve zero y = omega (arith, zero-bit_or y, zero-bit_or (y / 2))
bit_or-halve (suc x) y =
    let half : ℕ = suc x / 2 in
    omega (
      arith,
      bit_or-bitwise (suc x) y,
      bit_or-bitwise half (y / 2),
      digits_enough (λ b. b) max half x half (y / 2) (omega arith) (omega arith),
    )

halve_double : (q : ℕ) → q * 2 / 2 ≡ q
halve_double q = omega arith

bit_or-double : (x q : ℕ) → bit_or x (q * 2) ≡ bit_or (x / 2) q * 2 + x % 2
bit_or-double x q = rw (bit_or-halve x (q * 2), halve_double q) (omega arith)

times_two_pow : (k y : ℕ) → y * 2 ^ suc k ≡ y * 2 ^ k * 2
times_two_pow k y = omega (arith, ap (λ (t : ℕ). y * t) (pow-suc 2 k))

-- A number below `2 ^ k` and a multiple of `2 ^ k`.
pub bit_or-disjoint : (k x y : ℕ) → x < 2 ^ k → bit_or x (y * 2 ^ k) ≡ x + y * 2 ^ k
bit_or-disjoint zero zero y h = omega (arith, zero-bit_or (y * 1))
bit_or-disjoint zero (suc x) y h = absurd (omega arith)
bit_or-disjoint (suc k) x y h =
    rw (times_two_pow k y, bit_or-double x (y * 2 ^ k))
      (omega (arith, bit_or-disjoint k (x / 2) y (omega (arith, pow-suc 2 k))))

-- The digits of `v` below `p`, and the next eight.
mod_byte : (p v : ℕ) → v % p + v / p % 256 * p ≡ v % (p * 256)
mod_byte p v = omega (
  arith,
  mod-eq-sub-mul-div v p,
  mod-eq-sub-mul-div v (p * 256),
  div-mul-le_self v p,
  div-mul-le_self v (p * 256),
  div-div-eq-div-mul v p 256,
  ap (λ (t : ℕ). p * 256 * t) (div-div-eq-div-mul v p 256),
  ap (λ (t : ℕ). t * p) (div-add-mod (v / p) 256),
)

pow_add_eight : (k : ℕ) → 2 ^ (k + 8) ≡ 2 ^ k * 256
pow_add_eight k = simp towards_suc (omega arith)

pow_pos : (k : ℕ) → 0 < 2 ^ k
pow_pos zero = omega arith
pow_pos (suc k) = omega (arith, pow-suc 2 k, pow_pos k)

-- One more byte of `v` on top of its low `k` bits.
pub or_byte : (k v : ℕ) → bit_or (v % 2 ^ k) (v / 2 ^ k % 256 * 2 ^ k) ≡ v % 2 ^ (k + 8)
or_byte k v =
    bit_or-disjoint k (v % 2 ^ k) (v / 2 ^ k % 256) (mod-lt v (pow_pos k))
    ∙ mod_byte (2 ^ k) v
    ∙ ap (λ (t : ℕ). v % t) (sym (pow_add_eight k))
