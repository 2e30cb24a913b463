-- ===== src/Common/Maps.antt =====
-- std::unordered_map with number keys, as an association list with one entry for each key.
use Prim.Native.Nat.{ℕ}
use mathlib.Core.Path.{◌≡◌}
use mathlib.Core.Option.{Option, none, some}
use mathlib.Core.List.{List, [], ◌∷◌}
use native.Mathlib.Omega.{arith}
use access_security_system_e.Common.Tests.{◌==◌, if◌then◌else◌}

abbrev pub Map {ℓ} : Type ℓ → Type ℓ
Map V = List (ℕ × V)

module _ {ℓ} {V : Type ℓ} where
  unfoldable pub lookup : ℕ → Map V → Option V
  lookup k [] = none
  lookup k ((j, v) ∷ m) = if j == k then some v else lookup k m

  -- m[k] = v
  unfoldable pub update : ℕ → V → Map V → Map V
  update k v [] = (k, v) ∷ []
  update k v ((j, w) ∷ m) = let rest = update k v m in if j == k then (k, v) ∷ m else (j, w) ∷ rest

  pub lookup-update :
      (j k : ℕ) (v : V) (m : Map V)
      → lookup j (update k v m) ≡ (if k == j then some v else lookup j m)
  unfolding lookup update
  lookup-update j k v [] = ground arith
  lookup-update j k v ((i, w) ∷ m) = ground (arith, lookup-update j k v m)
