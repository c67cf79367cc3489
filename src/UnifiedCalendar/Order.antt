-- ===== src/UnifiedCalendar/Order.antt =====
-- The order of the unified calendar: internal/calendar/app/unified.go.
use nestova.Base.{◌<◌, ◌⊎◌, ◌==◌}
use nestova.Base.{
  ℕ, ◌≡◌, ◌∙◌, refl, Bool, true, false, List, [], ◌∷◌, Bool-cases, inl, inr, All, All-map, count,
  arith,
}
use nestova.UnifiedCalendar.{CalendarItem, text_less, less, insert_stable, sort_stable}

-- Of two texts, one at most is less.
text_less-asym : (xs ys : List ℕ) → text_less xs ys ≡ true → text_less ys xs ≡ false
text_less-asym [] [] h = cc
text_less-asym [] (y ∷ ys) h = refl
text_less-asym (x ∷ xs) [] h = cc
text_less-asym (x ∷ xs) (y ∷ ys) h = elim (Bool-cases (text_less xs ys)) [
  | inl t ↦ ground (arith, h, t, text_less-asym xs ys t)
  | inr t ↦ ground (arith, h, t)
]

text_less-negative :
    (xs ys zs : List ℕ)
    → text_less ys xs ≡ false
    → text_less zs ys ≡ false
    → text_less zs xs ≡ false
text_less-negative [] ys zs h k = elim zs [ [] ↦ refl | z ∷ zs' ↦ refl ]
text_less-negative (x ∷ xs) [] zs h k = absurd (cc)
text_less-negative (x ∷ xs) (y ∷ ys) [] h k = absurd (cc)
text_less-negative (x ∷ xs) (y ∷ ys) (z ∷ zs) h k = elim (Bool-cases (text_less ys xs)) [
  | inl t ↦ ground (arith, h, k, t, Bool-cases (text_less zs ys), Bool-cases (text_less zs xs))
  | inr t ↦ elim (Bool-cases (text_less zs ys)) [
    | inl u ↦ ground (arith, h, k, t, u, Bool-cases (text_less zs xs))
    | inr u ↦ ground (arith, h, k, t, u, text_less-negative xs ys zs t u)
  ]
]

less-asym : (a b : CalendarItem) → less a b ≡ true → less b a ≡ false
less-asym a b h = elim (Bool-cases (text_less a.title b.title)) [
  | inl t ↦ ground (arith, h, t, text_less-asym a.title b.title t)
  | inr t ↦ ground (arith, h, t)
]

less-negative : (a b c : CalendarItem) → less b a ≡ false → less c b ≡ false → less c a ≡ false
less-negative a b c h k = elim (Bool-cases (text_less b.title a.title)) [
  | inl t ↦ ground (arith, h, k, t)
  | inr t ↦ elim (Bool-cases (text_less c.title b.title)) [
    | inl u ↦ ground (arith, h, k, t, u)
    | inr u ↦ ground (arith, h, k, t, u, text_less-negative a.title b.title c.title t u)
  ]
]

-- No item is less than one before it.
abbrev IsSorted : List CalendarItem → Type 0
IsSorted [] = Unit
IsSorted (a ∷ items) = All (λ b. less b a ≡ false) items × IsSorted items

insert-All :
    (P : CalendarItem → Type 0) (a : CalendarItem) (items : List CalendarItem)
    → P a
    → All P items
    → All P (insert_stable a items)
insert-All P a [] h all = (h, tt)
insert-All P a (b ∷ items) h all = elim (Bool-cases (less b a)) [
  | inl t ↦ rw t (all.0, insert-All P a items h all.1)
  | inr t ↦ rw t (h, all)
]

insert-IsSorted :
    (a : CalendarItem) (items : List CalendarItem)
    → IsSorted items
    → IsSorted (insert_stable a items)
insert-IsSorted a [] h = (tt, tt)
insert-IsSorted a (b ∷ items) h = elim (Bool-cases (less b a)) [
  | inl t ↦ rw t (
    insert-All (λ c. less c b ≡ false) a items (less-asym b a t) h.0,
    insert-IsSorted a items h.1,
  )
  | inr t ↦ rw t ((t, All-map _ _ items (λ c k. less-negative a b c t k) h.0), h)
]

sort-IsSorted : (items : List CalendarItem) → IsSorted (sort_stable items)
unfolding sort_stable
sort-IsSorted [] = tt
sort-IsSorted (a ∷ items) = insert-IsSorted a (sort_stable items) (sort-IsSorted items)

-- The first starts earlier, or both start at once and the second's title is not less.
abbrev pub IsInOrder : CalendarItem → CalendarItem → Type 0
IsInOrder a b = (a.start < b.start) ⊎ ((a.start ≡ b.start) × (text_less b.title a.title ≡ false))

abbrev pub IsOrdered : List CalendarItem → Type 0
IsOrdered [] = Unit
IsOrdered (a ∷ items) = All (IsInOrder a) items × IsOrdered items

in_order : (a b : CalendarItem) → less b a ≡ false → IsInOrder a b
in_order a b h = elim (Bool-cases (b.start == a.start)) [
  | inl same ↦ inr (ground (arith, same), ground (arith, h, same))
  | inr other ↦ inl (ground (arith, h, other))
]

sorted-IsOrdered : (items : List CalendarItem) → IsSorted items → IsOrdered items
sorted-IsOrdered [] h = tt
sorted-IsOrdered (a ∷ items) (h, rest) =
    (All-map _ _ items (λ b. in_order a b) h, sorted-IsOrdered items rest)

pub sort-IsOrdered : (items : List CalendarItem) → IsOrdered (sort_stable items)
sort-IsOrdered items = sorted-IsOrdered (sort_stable items) (sort-IsSorted items)

count-insert :
    (q : CalendarItem → Bool) (a : CalendarItem) (items : List CalendarItem)
    → count q (insert_stable a items) ≡ count q (a ∷ items)
unfolding count
count-insert q a [] = refl
count-insert q a (b ∷ items) = elim (Bool-cases (less b a)) [
  | inl t ↦ rw t (ground (arith, Bool-cases (q a), Bool-cases (q b), count-insert q a items))
  | inr t ↦ rw t refl
]

pub count-sort :
    (q : CalendarItem → Bool) (items : List CalendarItem)
    → count q (sort_stable items) ≡ count q items
unfolding sort_stable count
count-sort q [] = refl
count-sort q (a ∷ items) =
    count-insert q a (sort_stable items) ∙ ground (arith, Bool-cases (q a), count-sort q items)
