-- ===== src/Common/Rows.antt =====
-- A table as the list of its rows: the rows that satisfy a test, found and removed.
use access_security_system_e.Common.Tests.{if◌then◌else◌, Bool-cases}
use mathlib.Core.Path.{◌≡◌, refl}
use mathlib.Core.Logic.{inl, inr}
use mathlib.Core.Bool.{Bool, true, false, not, ◌&&◌, ◌||◌}
use mathlib.Core.Option.{Option, none, some}
use mathlib.Core.List.{List, [], ◌∷◌}
use native.Mathlib.Omega.{arith}

module _ {ℓ} {A : Type ℓ} where
  unfoldable pub any_row : (A → Bool) → List A → Bool
  any_row p [] = false
  any_row p (x ∷ xs) = p x || any_row p xs

  unfoldable pub find_row : (A → Bool) → List A → Option A
  find_row p [] = none
  find_row p (x ∷ xs) = if p x then some x else find_row p xs

  unfoldable pub remove_rows : (A → Bool) → List A → List A
  remove_rows p [] = []
  remove_rows p (x ∷ xs) = let rest = remove_rows p xs in if p x then rest else x ∷ rest

  pub any_row-remove_rows :
      (p q : A → Bool) (xs : List A)
      → any_row p (remove_rows q xs) ≡ any_row (λ x. p x && not (q x)) xs
  unfolding any_row remove_rows
  any_row-remove_rows p q [] = refl
  any_row-remove_rows p q (x ∷ xs) = ground (arith, any_row-remove_rows p q xs)

  pub any_row_none : (p : A → Bool) (xs : List A) → ((x : A) → p x ≡ false) → any_row p xs ≡ false
  unfolding any_row
  any_row_none p [] h = refl
  any_row_none p (x ∷ xs) h = ground (arith, h x, any_row_none p xs h)

  pub any_row_same :
      (p q : A → Bool) (xs : List A) → ((x : A) → p x ≡ q x) → any_row p xs ≡ any_row q xs
  unfolding any_row
  any_row_same p q [] h = refl
  any_row_same p q (x ∷ xs) h = ground (arith, h x, any_row_same p q xs h)

  pub find_row-remove_rows_same :
      (p : A → Bool) (xs : List A) → find_row p (remove_rows p xs) ≡ none
  unfolding find_row remove_rows
  find_row-remove_rows_same p [] = refl
  find_row-remove_rows_same p (x ∷ xs) = elim (Bool-cases (p x)) [
    | inl e ↦ rw e (find_row-remove_rows_same p xs)
    | inr e ↦ rw (e, find_row, e) (find_row-remove_rows_same p xs)
  ]

  pub find_row-remove_rows_other :
      (p q : A → Bool) (xs : List A)
      → ((x : A) → p x ≡ true → q x ≡ false)
      → find_row p (remove_rows q xs) ≡ find_row p xs
  unfolding find_row remove_rows
  find_row-remove_rows_other p q [] h = refl
  find_row-remove_rows_other p q (x ∷ xs) h =
      ground (arith, h x, find_row-remove_rows_other p q xs h)
