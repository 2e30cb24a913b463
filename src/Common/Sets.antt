-- ===== src/Common/Sets.antt =====
-- A set of numbers as a list, for std::unordered_set.
use access_security_system_e.Common.Tests.{◌==◌, if◌then◌else◌}
use Prim.Native.Nat.{ℕ}
use mathlib.Core.Path.{◌≡◌, refl}
use mathlib.Core.Bool.{Bool, false, ◌||◌}
use mathlib.Core.List.{List, [], ◌∷◌, ◌++◌}
use native.Mathlib.Omega.{arith}

unfoldable pub mem : ℕ → List ℕ → Bool
mem x [] = false
mem x (y ∷ s) = x == y || mem x s

unfoldable pub insert : ℕ → List ℕ → List ℕ
unfolding mem
insert x s = if mem x s then s else x ∷ s

unfoldable pub erase : ℕ → List ℕ → List ℕ
erase x [] = []
erase x (y ∷ s) = let rest = erase x s in if x == y then rest else y ∷ rest

pub mem-insert : (x y : ℕ) (s : List ℕ) → mem x (insert y s) ≡ (x == y || mem x s)
unfolding insert mem
mem-insert x y s = ground arith

pub mem-erase : (x y : ℕ) (s : List ℕ) → mem x (erase y s) ≡ (if x == y then false else mem x s)
unfolding erase mem
mem-erase x y [] = ground arith
mem-erase x y (z ∷ s) = ground (arith, mem-erase x y s)

pub mem-append : (x : ℕ) (s t : List ℕ) → mem x (s ++ t) ≡ (mem x s || mem x t)
unfolding mem
mem-append x [] t = refl
mem-append x (y ∷ s) t = ground (arith, mem-append x s t)

pub mem_one : (x y : ℕ) → mem x (y ∷ []) ≡ (x == y)
unfolding mem
mem_one x y = ground arith
