-- ===== src/Base/Tables.antt =====
-- Lists as the rows of a table: what a search, a count and an update of them have to do with each
-- other.
use Prim.Native.Nat.{◌≤◌, ◌<◌, ◌+◌}
use mathlib.Core.Path.{◌≡◌, refl, subst}
use mathlib.Core.Bool.{Bool, true, false, ◌&&◌, ◌||◌}
use mathlib.Core.List.{List, [], ◌∷◌}
use mathlib.Core.Option
use mathlib.Core.Option.{Option, none, some}
use native.Mathlib.Omega.{arith}
use nestova.Base.Tests.{if◌then◌else◌, Bool-cases}
use mathlib.Core.Logic.{inl, inr}
use nestova.Base.Lists.{any, find, count, select, update, All}

module _ {ℓ} {A : Type ℓ} where
  pub find-test : (p : A → Bool) (xs : List A) {x : A} → find p xs ≡ some x → p x ≡ true
  unfolding find
  find-test p [] h = cc
  find-test p (x ∷ xs) h = elim (Bool-cases (p x)) [
    | inl yes' ↦ ground (arith, h, yes')
    | inr no' ↦ find-test p xs (ground (arith, h, no'))
  ]

  pub find-All {κ} :
      (P : A → Type κ) (p : A → Bool) (xs : List A) {x : A} → All P xs → find p xs ≡ some x → P x
  unfolding find
  find-All P p [] all h = cc
  find-All P p (x ∷ xs) all h = elim (Bool-cases (p x)) [
    | inl yes' ↦ subst P (ground (arith, h, yes')) all.0
    | inr no' ↦ find-All P p xs all.1 (ground (arith, h, no'))
  ]

  pub All-update {κ} :
      (P : A → Type κ) (p : A → Bool) (f : A → A) (xs : List A)
      → ((x : A) → p x ≡ true → P x → P (f x))
      → All P xs
      → All P (update p f xs)
  unfolding update
  All-update P p f [] h all = tt
  All-update P p f (x ∷ xs) h all = elim (Bool-cases (p x)) [
    | inl e ↦ (rw e (h x e all.0), All-update P p f xs h all.1)
    | inr e ↦ (rw e all.0, All-update P p f xs h all.1)
  ]

  -- A search by what an update leaves alone finds the updated row.
  pub find-update :
      (q p : A → Bool) (f : A → A) (xs : List A)
      → ((x : A) → q (f x) ≡ q x)
      → find q (update p f xs) ≡ Option.map (λ x. if p x then f x else x) (find q xs)
  unfolding find update
  find-update q p f [] h = refl
  find-update q p f (x ∷ xs) h =
      ground (arith, Bool-cases (p x), Bool-cases (q x), h x, find-update q p f xs h)

  pub find-cons : (q : A → Bool) (x : A) (xs : List A) → q x ≡ false → find q (x ∷ xs) ≡ find q xs
  unfolding find
  find-cons q x xs h = rw h

  -- A test that an update leaves alone.
  pub any-kept :
      (q p : A → Bool) (f : A → A) (xs : List A)
      → ((x : A) → q (f x) ≡ q x)
      → any q (update p f xs) ≡ any q xs
  unfolding any update
  any-kept q p f [] h = refl
  any-kept q p f (x ∷ xs) h = ground (arith, Bool-cases (p x), h x, any-kept q p f xs h)

  pub not_any :
      (p q : A → Bool) (xs : List A) {y : A} → any p xs ≡ false → find q xs ≡ some y → p y ≡ false
  unfolding any find
  not_any p q [] h e = cc
  not_any p q (x ∷ xs) h e = elim (Bool-cases (q x)) [
    | inl t ↦ subst (λ z. p z ≡ false) {x = x} (ground (arith, e, t)) (ground (arith, h))
    | inr t ↦ not_any p q xs (ground (arith, h)) (ground (arith, e, t))
  ]

  pub count-update-le :
      (q p : A → Bool) (f : A → A) (xs : List A)
      → ((x : A) → p x ≡ true → q (f x) ≡ true → q x ≡ true)
      → count q (update p f xs) ≤ count q xs
  unfolding count update
  count-update-le q p f [] h = omega arith
  count-update-le q p f (x ∷ xs) h = ground (
    arith,
    Bool-cases (p x),
    Bool-cases (q x),
    Bool-cases (q (f x)),
    h x,
    count-update-le q p f xs h,
  )

  -- Nothing that is counted changes.
  pub count-update :
      (q p : A → Bool) (f : A → A) (xs : List A)
      → ((x : A) → p x ≡ true → q (f x) ≡ q x)
      → count q (update p f xs) ≡ count q xs
  unfolding count update
  count-update q p f [] h = refl
  count-update q p f (x ∷ xs) h =
      ground (arith, Bool-cases (p x), Bool-cases (q x), h x, count-update q p f xs h)

  pub count-none : (q : A → Bool) (xs : List A) → any q xs ≡ false → count q xs ≡ 0
  unfolding count any
  count-none q [] h = refl
  count-none q (x ∷ xs) h = ground (arith, Bool-cases (q x), count-none q xs)

  pub select-none : (q : A → Bool) (xs : List A) → any q xs ≡ false → select q xs ≡ []
  unfolding select any
  select-none q [] h = refl
  select-none q (x ∷ xs) h = ground (arith, Bool-cases (q x), select-none q xs)

  pub any-update :
      (q p : A → Bool) (f : A → A) (xs : List A)
      → ((x : A) → (if p x then q (f x) else q x) ≡ false)
      → any q (update p f xs) ≡ false
  unfolding any update
  any-update q p f [] h = refl
  any-update q p f (x ∷ xs) h = ground (arith, Bool-cases (p x), h x, any-update q p f xs h)

  pub update-none : (p : A → Bool) (f : A → A) (xs : List A) → any p xs ≡ false → update p f xs ≡ xs
  unfolding update any
  update-none p f [] h = refl
  update-none p f (x ∷ xs) h = ground (arith, Bool-cases (p x), update-none p f xs)

  pub count-le :
      (p q : A → Bool) (xs : List A) → ((x : A) → p x ≡ true → q x ≡ true) → count p xs ≤ count q xs
  unfolding count
  count-le p q [] h = omega arith
  count-le p q (x ∷ xs) h =
      ground (arith, Bool-cases (p x), Bool-cases (q x), h x, count-le p q xs h)

  -- Rows that pass either of two tests.
  pub count-either :
      (p q r : A → Bool) (xs : List A)
      → ((x : A) → p x ≡ true → (p x && q x || p x && r x) ≡ true)
      → count p xs ≤ count (λ x. p x && q x) xs + count (λ x. p x && r x) xs
  unfolding count
  count-either p q r [] h = omega arith
  count-either p q r (x ∷ xs) h =
      ground
        (arith, Bool-cases (p x), Bool-cases (q x), Bool-cases (r x), h x, count-either p q r xs h)

  -- The one row with a key passes the test that some row with the key passes.
  pub find-key :
      (p q : A → Bool) (xs : List A)
      → count q xs ≤ 1
      → 0 < count (λ x. p x && q x) xs
      → (x : A) × (find q xs ≡ some x) × (p x ≡ true)
  unfolding count find
  find-key p q [] k h = absurd (omega arith)
  find-key p q (x ∷ xs) k h = elim (Bool-cases (q x)) [
    | inl t ↦ (
      x,
      rw t,
      ground (arith, count-le (λ y. p y && q y) q xs (λ y e. ground (arith, e)), Bool-cases (p x)),
    )
    | inr t ↦
        let (y, found, e) = find-key p q xs (ground arith) (ground (arith, Bool-cases (p x))) in
        (y, rw t found, e)
  ]

  pub any-find : (p : A → Bool) (xs : List A) {x : A} → find p xs ≡ some x → any p xs ≡ true
  unfolding find any
  any-find p [] h = cc
  any-find p (y ∷ xs) {x} h = ground (arith, h, Bool-cases (p y), any-find p xs {x = x})

  pub unmatched : (p : A → Bool) (xs : List A) → find p xs ≡ none → any p xs ≡ false
  unfolding find any
  unmatched p [] h = refl
  unmatched p (y ∷ xs) h = ground (arith, h, Bool-cases (p y), unmatched p xs)

  -- A search for other rows than the updated ones.
  pub find-update-other :
      (q p : A → Bool) (f : A → A) (xs : List A)
      → ((x : A) → p x ≡ true → q x ≡ false)
      → ((x : A) → q (f x) ≡ q x)
      → find q (update p f xs) ≡ find q xs
  unfolding find update
  find-update-other q p f [] h same = refl
  find-update-other q p f (x ∷ xs) h same =
      ground
        (arith, Bool-cases (p x), Bool-cases (q x), h x, same x, find-update-other q p f xs h same)
