-- ===== src/Prelude/Keys.antt =====
-- Primary keys: the rows of a table have different keys, and no write changes a key.
use mathlib.Core.Path.{◌≡◌, ◌∙◌}
use mathlib.Core.Bool.{Bool, true, false, ◌&&◌}
use mathlib.Core.List.{List, [], ◌∷◌}
use mathlib.Core.Option.{some}
use mathlib.Core.Logic.{inl, inr}
use Prim.Native.Nat.{ℕ}
use native.Mathlib.Omega.{arith}
use stolosio.Prelude.Tests.{◌==◌, if◌then◌else◌, Bool-cases}
use stolosio.Prelude.Rows.{any, find, update_where, update_row}
use stolosio.Prelude.Counts.{any_mono, any-find}
use stolosio.Prelude.Writes.{any-update_where_same, any-update_row_same}

module _ {ℓ} {A : Type ℓ} (key : A → ℕ) where
  -- No row of the rest has the key of the first, and so on.
  abbrev pub Distinct : List A → Type 0
  Distinct [] = Unit
  Distinct (x ∷ xs) = (any (λ y. key y == key x) xs ≡ false) × Distinct xs

  pub Distinct-update_where :
      (p : A → Bool) (f : A → A)
      → ((x : A) → key (f x) ≡ key x)
      → (xs : List A) → Distinct xs
      → Distinct (update_where p f xs)
  Distinct-update_where p f same [] d = tt
  Distinct-update_where p f same (x ∷ xs) d =
      let first : key (if p x then f x else x) ≡ key x = ground (arith, same x) in
      (
        rw first (any-update_where_same (λ y. key y == key x) p f (λ y. rw (same y)) xs ∙ d.0),
        Distinct-update_where p f same xs d.1,
      )

  pub Distinct-update_row :
      (p : A → Bool) (f : A → A)
      → ((x : A) → key (f x) ≡ key x)
      → (xs : List A) → Distinct xs
      → Distinct (update_row p f xs)
  Distinct-update_row p f same [] d = tt
  Distinct-update_row p f same (x ∷ xs) d = elim (Bool-cases (p x)) [
    | inl e ↦ rw e (rw (same x) d.0, d.1)
    | inr e ↦ rw e (
      (any-update_row_same (λ y. key y == key x) p f (λ y. rw (same y)) xs ∙ d.0),
      Distinct-update_row p f same xs d.1,
    )
  ]

  -- The row of a key is the one that another test by that key sees.
  pub find-Distinct :
      (p r : A → Bool) (k : ℕ) (row : A) (xs : List A)
      → Distinct xs
      → find p xs ≡ some row
      → (key row == k) ≡ true
      → any (λ x. key x == k && r x) xs ≡ true
      → r row ≡ true
  find-Distinct p r k row [] d e is_k a = cc
  find-Distinct p r k row (x ∷ xs) d e is_k a = elim (Bool-cases (p x)) [
    | inl t ↦
        let same : x ≡ row = ground arith in
        let other =
          any_mono (λ y. key y == k && r y) (λ y. key y == key x) (λ y h. ground arith) xs in
        let here : any (λ y. key y == k && r y) xs ≡ false = ground (arith, d.0, other) in
        ground arith
    | inr t ↦
        let ih = find-Distinct p r k row xs d.1 (rw t at e) is_k in
        let other = any-find (λ y. key y == key x) p xs (rw t at e) in ground (arith, d.0)
  ]
