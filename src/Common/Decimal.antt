-- ===== src/Common/Decimal.antt =====
-- std::to_string of an unsigned 64-bit number, as the bytes of its decimal digits.
use Prim.Native.Nat.{ℕ, zero, suc, ◌+◌, ◌-◌, ◌*◌, ◌/◌, ◌%◌, ◌^◌, ◌<◌}
use native.Mathlib.Nat.{pow-suc}
use mathlib.Core.Path.{◌≡◌, sym, ap, ◌∙◌}
use mathlib.Core.List.{List, [], ◌∷◌}
use native.Mathlib.Omega.{arith}
use access_security_system_e.Common.Tests.{◌==◌, if◌then◌else◌, Bool-cases}
use mathlib.Core.Logic.{inl, inr}

decimal_loop : ℕ → ℕ → List ℕ → List ℕ
decimal_loop zero n digits = digits
decimal_loop (suc fuel) n digits =
    let digit = (48 + n % 10) ∷ digits in
    let rest = decimal_loop fuel (n / 10) digit in if n / 10 == 0 then digit else rest

-- 20 digits hold every number below 2 ^ 64.
unfoldable pub to_string : ℕ → List ℕ
unfolding decimal_loop
to_string n = decimal_loop 20 n []

-- The number that a string of digits stands for, after those already read.
value : ℕ → List ℕ → ℕ
value n [] = n
value n (d ∷ ds) = value (n * 10 + (d - 48)) ds

one_digit :
    (acc n : ℕ) (digits : List ℕ)
    → acc * 10 + n % 10 ≡ n
    → value acc ((48 + n % 10) ∷ digits) ≡ value n digits
unfolding value
one_digit acc n digits h = ap (λ (t : ℕ). value t digits) (omega arith)

fuel_left : (fuel n : ℕ) → 0 < n / 10 → n < 10 ^ suc fuel → 0 < fuel
fuel_left zero n h l = absurd (omega arith)
fuel_left (suc fuel) n h l = omega arith

value-decimal_loop :
    (fuel n : ℕ) (digits : List ℕ)
    → n < 10 ^ fuel
    → 0 < fuel
    → value 0 (decimal_loop fuel n digits) ≡ value n digits
unfolding value decimal_loop
value-decimal_loop zero n digits h p = absurd (omega arith)
value-decimal_loop (suc fuel) n digits h p = elim (Bool-cases (n / 10 == 0)) [
  | inl last ↦ rw last (one_digit 0 n digits (ground arith))
  | inr more ↦ rw more (
      value-decimal_loop fuel (n / 10) ((48 + n % 10) ∷ digits) (omega (arith, pow-suc 10 fuel))
        (fuel_left fuel n (ground arith) h)
      ∙ one_digit (n / 10) n digits (omega arith))
]

-- The digits stand for the number.
pub to_string-injective : (m n : ℕ) → m < 2 ^ 64 → n < 2 ^ 64 → to_string m ≡ to_string n → m ≡ n
unfolding to_string value
to_string-injective m n hm hn e =
    sym (value-decimal_loop 20 m [] (omega arith) (omega arith))
    ∙ ap (value 0) e
    ∙ value-decimal_loop 20 n [] (omega arith) (omega arith)
