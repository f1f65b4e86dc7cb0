-- ===== src/Prelude/Counts.antt =====
-- Laws of the table queries: what a write to some rows does to a count or to a search.
use Prim.Native.Nat.{suc, ◌≤◌}
use mathlib.Core.Path.{◌≡◌, subst}
use mathlib.Core.Logic.{inl, inr}
use mathlib.Core.Bool.{Bool, true, false, not, ◌&&◌}
use mathlib.Core.List.{List, [], ◌∷◌}
use native.Mathlib.Omega.{arith}
use stolosio.Prelude.Tests.{if◌then◌else◌, Bool-cases}
use mathlib.Core.Option.{some}
use stolosio.Prelude.Rows.{any, count, find, update_where, update_row, All}

module _ {ℓ} {A : Type ℓ} where
  -- Rows that satisfy `q'` after the write satisfied `q` before it.
  pub count-update_where-le :
      (q' q p : A → Bool) (f : A → A)
      → ((x : A) → q' (if p x then f x else x) ≡ true → q x ≡ true)
      → (xs : List A) → count q' (update_where p f xs) ≤ count q xs
  count-update_where-le q' q p f h [] = omega arith
  count-update_where-le q' q p f h (x ∷ xs) =
      let ih = count-update_where-le q' q p f h xs in ground (arith, h x)

  pub any-update_where :
      (q' q p : A → Bool) (f : A → A)
      → ((x : A) → q' (if p x then f x else x) ≡ true → q x ≡ true)
      → (xs : List A) → any q' (update_where p f xs) ≡ true
      → any q xs ≡ true
  any-update_where q' q p f h [] e = e
  any-update_where q' q p f h (x ∷ xs) e =
      let ih = any-update_where q' q p f h xs in ground (arith, h x)

  pub count_mono :
      (q' q : A → Bool)
      → ((x : A) → q' x ≡ true → q x ≡ true)
      → (xs : List A) → count q' xs ≤ count q xs
  count_mono q' q h [] = omega arith
  count_mono q' q h (x ∷ xs) = let ih = count_mono q' q h xs in ground (arith, h x)

  pub any_mono :
      (q' q : A → Bool)
      → ((x : A) → q' x ≡ true → q x ≡ true)
      → (xs : List A) → any q' xs ≡ true
      → any q xs ≡ true
  any_mono q' q h [] e = e
  any_mono q' q h (x ∷ xs) e = let ih = any_mono q' q h xs in ground (arith, h x)

  -- The same, for rows that all have a property.
  pub count_mono_All {κ} :
      (P : A → Type κ) (q' q : A → Bool)
      → ((x : A) → P x → q' x ≡ true → q x ≡ true)
      → (xs : List A) → All P xs
      → count q' xs ≤ count q xs
  count_mono_All P q' q h [] a = omega arith
  count_mono_All P q' q h (x ∷ xs) a =
      let ih = count_mono_All P q' q h xs a.1 in ground (arith, h x a.0)

  -- A write to the row that `find` reads.
  pub count-update_row-le :
      (q p : A → Bool) (f : A → A) (row : A) (xs : List A)
      → find p xs ≡ some row
      → (q (f row) ≡ true → q row ≡ true)
      → count q (update_row p f xs) ≤ count q xs
  count-update_row-le q p f row [] e h = omega arith
  count-update_row-le q p f row (x ∷ xs) e h =
      let ih = count-update_row-le q p f row xs in ground arith

  pub any-update_row :
      (q p : A → Bool) (f : A → A) (row : A) (xs : List A)
      → find p xs ≡ some row
      → (q (f row) ≡ true → q row ≡ true)
      → any q (update_row p f xs) ≡ true
      → any q xs ≡ true
  any-update_row q p f row [] e h a = a
  any-update_row q p f row (x ∷ xs) e h a = let ih = any-update_row q p f row xs in ground arith

  pub All-update_where {κ ι} :
      (P : A → Type κ) (Q : A → Type ι) (p : A → Bool) (f : A → A)
      → ((x : A) → P x → p x ≡ true → Q (f x))
      → ((x : A) → P x → p x ≡ false → Q x)
      → (xs : List A) → All P xs
      → All Q (update_where p f xs)
  All-update_where P Q p f h k [] a = tt
  All-update_where P Q p f h k (x ∷ xs) a = (
    elim (Bool-cases (p x)) [ inl e ↦ rw e (h x a.0 e) | inr e ↦ rw e (k x a.0 e) ],
    All-update_where P Q p f h k xs a.1,
  )

  pub All-update_row {κ} :
      (P : A → Type κ) (p : A → Bool) (f : A → A)
      → ((x : A) → P x → p x ≡ true → P (f x))
      → (xs : List A) → All P xs
      → All P (update_row p f xs)
  All-update_row P p f h [] a = tt
  All-update_row P p f h (x ∷ xs) a = elim (Bool-cases (p x)) [
    | inl e ↦ rw e (h x a.0 e, a.1)
    | inr e ↦ rw e (a.0, All-update_row P p f h xs a.1)
  ]

  -- Only the row that is found is written.
  pub All-update_found {κ} :
      (P : A → Type κ) (p : A → Bool) (f : A → A) (row : A)
      → (P row → P (f row))
      → (xs : List A) → find p xs ≡ some row
      → All P xs
      → All P (update_row p f xs)
  All-update_found P p f row h [] e a = tt
  All-update_found P p f row h (x ∷ xs) e a = elim (Bool-cases (p x)) [
    | inl t ↦
        rw t (let same : row ≡ x = ground arith in subst (λ (y : A). P y → P (f y)) same h a.0, a.1)
    | inr t ↦ rw t (a.0, All-update_found P p f row h xs (rw t at e) a.1)
  ]

  -- A write to one row adds at most one to a count.
  pub count-update_row-le_suc :
      (q p : A → Bool) (f : A → A) (xs : List A) → count q (update_row p f xs) ≤ suc (count q xs)
  count-update_row-le_suc q p f [] = omega arith
  count-update_row-le_suc q p f (x ∷ xs) = let ih = count-update_row-le_suc q p f xs in ground arith

  pub All-map {κ ι} :
      (P : A → Type κ) (Q : A → Type ι)
      → ((x : A) → P x → Q x)
      → (xs : List A) → All P xs
      → All Q xs
  All-map P Q h [] a = tt
  All-map P Q h (x ∷ xs) a = (h x a.0, All-map P Q h xs a.1)

  -- If some row passes `q`, and every row that does passes `r` too, then some row passes both.
  pub any-both :
      (q r : A → Bool) (xs : List A)
      → any q xs ≡ true
      → any (λ x. q x && not (r x)) xs ≡ false
      → any (λ x. q x && r x) xs ≡ true
  any-both q r [] e d = e
  any-both q r (x ∷ xs) e d = let ih = any-both q r xs in ground arith

  pub any-find :
      (q p : A → Bool) {row : A} (xs : List A)
      → find p xs ≡ some row
      → q row ≡ true
      → any q xs ≡ true
  any-find q p [] e h = cc
  any-find q p {row = row} (x ∷ xs) e h = let ih = any-find q p {row = row} xs in ground arith
