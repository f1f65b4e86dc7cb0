-- ===== src/Prelude/Registers.antt =====
-- Dictionaries by number, as association lists.
use Prim.Native.Nat.{ℕ}
use mathlib.Core.Bool.{Bool, true, false}
use mathlib.Core.Option.{Option, none, some}
use mathlib.Core.List.{List, [], ◌∷◌}
use stolosio.Prelude.Tests.{◌==◌, if◌then◌else◌}

module _ {ℓ} {V : Type ℓ} where
  -- entries.get(k)
  abbrev pub entry : ℕ → List (ℕ × V) → Option V
  entry k [] = none
  entry k ((j, v) ∷ m) = let rest = entry k m in if j == k then some v else rest

  -- entries[k] = v
  abbrev pub put : ℕ → V → List (ℕ × V) → List (ℕ × V)
  put k v [] = (k, v) ∷ []
  put k v ((j, w) ∷ m) = let rest = put k v m in if j == k then (k, v) ∷ m else (j, w) ∷ rest

  -- entries.pop(k, None)
  abbrev pub pop : ℕ → List (ℕ × V) → List (ℕ × V)
  pop k [] = []
  pop k ((j, v) ∷ m) = let rest = pop k m in if j == k then rest else (j, v) ∷ rest

-- `k in keys`
abbrev pub member : ℕ → List ℕ → Bool
member k [] = false
member k (j ∷ js) = let rest = member k js in if j == k then true else rest
