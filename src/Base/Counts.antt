-- ===== src/Base/Counts.antt =====
-- Counting the rows of a table: joins, selections, and tests that split a count.
use Prim.Native.Nat.{◌≤◌, ◌<◌, ◌+◌}
use mathlib.Core.Path.{◌≡◌, refl}
use mathlib.Core.Bool.{Bool, true, false, not, ◌&&◌}
use mathlib.Core.List.{List, [], ◌∷◌, ◌++◌, map}
use mathlib.Core.Option.{none}
use native.Mathlib.Omega.{arith}
use nestova.Base.Tests.{Bool-cases}
use nestova.Base.Lists.{any, count, find, select, update}

module _ {ℓ} {A : Type ℓ} where
  pub count-append : (p : A → Bool) (xs ys : List A) → count p (xs ++ ys) ≡ count p xs + count p ys
  unfolding count
  count-append p [] ys = omega arith
  count-append p (x ∷ xs) ys = ground (arith, Bool-cases (p x), count-append p xs ys)

  pub count-select :
      (p q : A → Bool) (xs : List A) → count p (select q xs) ≡ count (λ x. q x && p x) xs
  unfolding count select
  count-select p q [] = refl
  count-select p q (x ∷ xs) =
      ground (arith, Bool-cases (p x), Bool-cases (q x), count-select p q xs)

  pub count-map :
      (p : A → Bool) (f : A → A) (xs : List A)
      → ((x : A) → p (f x) ≡ p x)
      → count p (map f xs) ≡ count p xs
  unfolding count
  count-map p f [] h = refl
  count-map p f (x ∷ xs) h = ground (arith, Bool-cases (p x), h x, count-map p f xs h)

  pub any-count : (p : A → Bool) (xs : List A) → 0 < count p xs → any p xs ≡ true
  unfolding count any
  any-count p [] h = absurd (omega arith)
  any-count p (x ∷ xs) h = ground (arith, Bool-cases (p x), any-count p xs)

  pub count-any : (p : A → Bool) (xs : List A) → any p xs ≡ true → 0 < count p xs
  unfolding count any
  count-any p [] h = cc
  count-any p (x ∷ xs) h = ground (arith, Bool-cases (p x), count-any p xs)

  pub count-split :
      (p q : A → Bool) (xs : List A)
      → count p xs ≡ count (λ x. q x && p x) xs + count (λ x. not (q x) && p x) xs
  unfolding count
  count-split p q [] = refl
  count-split p q (x ∷ xs) = ground (arith, Bool-cases (p x), Bool-cases (q x), count-split p q xs)

  -- An update counts what it makes of the rows.
  pub count-updated :
      (q p r : A → Bool) (f : A → A) (xs : List A)
      → ((x : A) → p x ≡ true → q (f x) ≡ true → r x ≡ true)
      → ((x : A) → p x ≡ false → q x ≡ true → r x ≡ true)
      → count q (update p f xs) ≤ count r xs
  unfolding count update
  count-updated q p r f [] g h = omega arith
  count-updated q p r f (x ∷ xs) g h = ground (
    arith,
    Bool-cases (p x),
    Bool-cases (q x),
    Bool-cases (q (f x)),
    Bool-cases (r x),
    g x,
    h x,
    count-updated q p r f xs g h,
  )

  pub any_of_count : (p : A → Bool) (xs : List A) → count p xs ≡ 0 → any p xs ≡ false
  unfolding count any
  any_of_count p [] h = refl
  any_of_count p (x ∷ xs) h = ground (arith, h, Bool-cases (p x), any_of_count p xs)

  -- What a selection leaves out, and what it leaves alone.
  pub unselected : (p : A → Bool) (xs : List A) → any p (select (λ x. not (p x)) xs) ≡ false
  unfolding any select
  unselected p [] = refl
  unselected p (x ∷ xs) = ground (arith, Bool-cases (p x), unselected p xs)

  pub find-select :
      (q p : A → Bool) (xs : List A)
      → ((x : A) → q x ≡ true → p x ≡ true)
      → find q (select p xs) ≡ find q xs
  unfolding find select
  find-select q p [] h = refl
  find-select q p (x ∷ xs) h =
      ground (arith, Bool-cases (p x), Bool-cases (q x), h x, find-select q p xs h)

  pub find_of_any : (p : A → Bool) (xs : List A) → any p xs ≡ false → find p xs ≡ none
  unfolding find any
  find_of_any p [] h = refl
  find_of_any p (x ∷ xs) h = ground (arith, h, Bool-cases (p x), find_of_any p xs)
