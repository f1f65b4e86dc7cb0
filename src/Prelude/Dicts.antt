-- ===== src/Prelude/Dicts.antt =====
-- Dictionaries and sets of texts, as association lists and lists.
use Prim.Native.String.{String}
use text.Mathlib.Text.{◌==◌ as str_eq}
use text.Mathlib.TextEquality.{eq_iff}
use mathlib.Core.Path.{◌≡◌, refl}
use mathlib.Core.Bool.{Bool, false, ◌||◌}
use mathlib.Core.Option.{Option, none, some}
use mathlib.Core.List.{List, [], ◌∷◌}
use native.Mathlib.Omega.{arith}
use stolosio.Prelude.Tests.{if◌then◌else◌}

-- `k in keys`
abbrev pub contains : String → List String → Bool
contains k [] = false
contains k (j ∷ js) = str_eq j k || contains k js

-- keys.discard(k)
abbrev pub discard : String → List String → List String
discard k [] = []
discard k (j ∷ js) = let rest = discard k js in if str_eq j k then rest else j ∷ rest

pub contains-discard :
    (k j : String) (js : List String)
    → contains k (discard j js) ≡ (if str_eq j k then false else contains k js)
contains-discard k j [] = ground arith
contains-discard k j (i ∷ js) =
    ground (arith, contains-discard k j js, eq_iff i j, eq_iff i k, eq_iff j k)

module _ {ℓ} {V : Type ℓ} where
  -- entries.get(k)
  abbrev pub lookup : String → List (String × V) → Option V
  lookup k [] = none
  lookup k ((j, v) ∷ m) = if str_eq j k then some v else lookup k m

  -- entries[k] = v
  abbrev pub insert : String → V → List (String × V) → List (String × V)
  insert k v [] = (k, v) ∷ []
  insert k v ((j, w) ∷ m) =
      let rest = insert k v m in if str_eq j k then (k, v) ∷ m else (j, w) ∷ rest

  -- entries.pop(k, None)
  abbrev pub delete : String → List (String × V) → List (String × V)
  delete k [] = []
  delete k ((j, w) ∷ m) = let rest = delete k m in if str_eq j k then rest else (j, w) ∷ rest

  pub lookup-insert :
      (k j : String) (v : V) (m : List (String × V))
      → lookup k (insert j v m) ≡ (if str_eq j k then some v else lookup k m)
  lookup-insert k j v [] = refl
  lookup-insert k j v ((i, w) ∷ m) =
      ground (arith, lookup-insert k j v m, eq_iff i j, eq_iff i k, eq_iff j k)

  pub lookup-delete :
      (k j : String) (m : List (String × V))
      → lookup k (delete j m) ≡ (if str_eq j k then none else lookup k m)
  lookup-delete k j [] = ground arith
  lookup-delete k j ((i, w) ∷ m) =
      ground (arith, lookup-delete k j m, eq_iff i j, eq_iff i k, eq_iff j k)
