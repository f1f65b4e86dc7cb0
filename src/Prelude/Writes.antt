-- ===== src/Prelude/Writes.antt =====
-- Laws of the table writes: what they leave in place, and what a search finds after them.
use mathlib.Core.Path.{◌≡◌, refl}
use mathlib.Core.Logic.{inl, inr}
use mathlib.Core.Bool.{Bool, true, false}
use mathlib.Core.List.{List, [], ◌∷◌, Memᴰ}
use mathlib.Core.Option.{none, some}
use native.Mathlib.Omega.{arith}
use stolosio.Prelude.Tests.{Bool-cases}
use stolosio.Prelude.Rows.{any, find, select, update_where, update_row}

module _ {ℓ} {A : Type ℓ} where
  -- A write that the test does not see.
  pub any-update_where_same :
      (q p : A → Bool) (f : A → A)
      → ((x : A) → q (f x) ≡ q x)
      → (xs : List A) → any q (update_where p f xs) ≡ any q xs
  any-update_where_same q p f h [] = refl
  any-update_where_same q p f h (x ∷ xs) =
      let ih = any-update_where_same q p f h xs in ground (arith, h x)

  pub any-update_row_same :
      (q p : A → Bool) (f : A → A)
      → ((x : A) → q (f x) ≡ q x)
      → (xs : List A) → any q (update_row p f xs) ≡ any q xs
  any-update_row_same q p f h [] = refl
  any-update_row_same q p f h (x ∷ xs) =
      let ih = any-update_row_same q p f h xs in ground (arith, h x)

  -- A row that is found passes the test.
  pub find-test : (p : A → Bool) {row : A} (xs : List A) → find p xs ≡ some row → p row ≡ true
  find-test p [] e = cc
  find-test p {row = row} (x ∷ xs) e = let ih = find-test p {row = row} xs in ground arith

  pub find-update_row :
      (p : A → Bool) (f : A → A) (row : A) (xs : List A)
      → find p xs ≡ some row
      → p (f row) ≡ true
      → find p (update_row p f xs) ≡ some (f row)
  find-update_row p f row [] e h = cc
  find-update_row p f row (x ∷ xs) e h = let ih = find-update_row p f row xs in ground arith

  pub update_row-find-none :
      (p : A → Bool) (f : A → A) (xs : List A) → find p xs ≡ none → update_row p f xs ≡ xs
  update_row-find-none p f [] e = refl
  update_row-find-none p f (x ∷ xs) e = let ih = update_row-find-none p f xs in ground arith

  pub select-update_where_nil :
      (p : A → Bool) (f : A → A)
      → ((x : A) → p x ≡ true → p (f x) ≡ false)
      → (xs : List A) → select p (update_where p f xs) ≡ []
  select-update_where_nil p f h [] = refl
  select-update_where_nil p f h (x ∷ xs) =
      let ih = select-update_where_nil p f h xs in ground (arith, h x)

  pub update_where-select_nil :
      (p : A → Bool) (f : A → A) (xs : List A) → select p xs ≡ [] → update_where p f xs ≡ xs
  update_where-select_nil p f [] e = refl
  update_where-select_nil p f (x ∷ xs) e = let ih = update_where-select_nil p f xs in ground arith

  pub mem-update_where :
      (p : A → Bool) (f : A → A) {x : A} {xs : List A}
      → Memᴰ x xs
      → p x ≡ false
      → Memᴰ x (update_where p f xs)
  mem-update_where p f (Memᴰ.head {x = y} {xs = ys} e) h =
      Memᴰ.head (let h' : p y ≡ false = rw (← e) h in rw h' e)
  mem-update_where p f (Memᴰ.tail m) h = Memᴰ.tail (mem-update_where p f m h)

  -- A row that differs from the written one by the test `q` stays.
  pub mem-update_row :
      (q p : A → Bool) (f : A → A) {row x : A} {xs : List A}
      → Memᴰ x xs
      → find p xs ≡ some row
      → q row ≡ false
      → q x ≡ true
      → Memᴰ x (update_row p f xs)
  mem-update_row q p f (Memᴰ.head {x = y} {xs = ys} e) found d h = elim (Bool-cases (p y)) [
    | inl t ↦ absurd (ground arith)
    | inr t ↦ rw t (Memᴰ.head e)
  ]
  mem-update_row q p f (Memᴰ.tail {x = y} {xs = ys} m) found d h = elim (Bool-cases (p y)) [
    | inl t ↦ rw t (Memᴰ.tail m)
    | inr t ↦ rw t (Memᴰ.tail (mem-update_row q p f m (rw t at found) d h))
  ]
