-- ===== src/Text.antt =====
-- Texts as lists of their code points, with Go's `strings` functions that the code uses.
-- `strings.ToUpper` is modelled on ASCII letters.
use nestova.Base.{
  ℕ, ◌-◌, ◌≡◌, refl, Bool, true, false, ◌&&◌, ◌||◌, List, [], ◌∷◌, leb, ◌==◌, if◌then◌else◌, any,
  arith, Bool-cases,
}

abbrev pub is_empty : List ℕ → Bool
is_empty [] = true
is_empty (c ∷ text) = false

abbrev pub same_bytes : List ℕ → List ℕ → Bool
same_bytes [] [] = true
same_bytes [] (b ∷ ys) = false
same_bytes (a ∷ xs) [] = false
same_bytes (a ∷ xs) (b ∷ ys) = a == b && same_bytes xs ys

abbrev pub to_upper : ℕ → ℕ
to_upper c = if leb 97 c && leb c 122 then c - 32 else c

-- unicode.IsSpace
unfoldable pub is_space : ℕ → Bool
is_space c =
    leb 9 c && leb c 13
    || c == 32
    || c == 133
    || c == 160
    || c == 5760
    || leb 8192 c && leb c 8202
    || c == 8232
    || c == 8233
    || c == 8239
    || c == 8287
    || c == 12288

unfoldable pub trim_left : List ℕ → List ℕ
trim_left [] = []
trim_left (c ∷ text) = if is_space c then trim_left text else c ∷ text

unfoldable pub trim_right : List ℕ → List ℕ
trim_right [] = []
trim_right (c ∷ text) =
    let rest = trim_right text in if is_space c && is_empty rest then [] else c ∷ rest

abbrev pub trim_space : List ℕ → List ℕ
trim_space text = trim_right (trim_left text)

pub same_bytes_refl : (xs : List ℕ) → same_bytes xs xs ≡ true
same_bytes_refl [] = refl
same_bytes_refl (x ∷ xs) = ground (arith, same_bytes_refl xs)

pub eq_of_bytes : (xs ys : List ℕ) → same_bytes xs ys ≡ true → xs ≡ ys
eq_of_bytes [] [] h = refl
eq_of_bytes [] (y ∷ ys) h = cc
eq_of_bytes (x ∷ xs) [] h = cc
eq_of_bytes (x ∷ xs) (y ∷ ys) h = ground (arith, h, eq_of_bytes xs ys)

-- Trimming leaves a text without white space alone.
trim_left-solid : (text : List ℕ) → any is_space text ≡ false → trim_left text ≡ text
unfolding trim_left any
trim_left-solid [] h = refl
trim_left-solid (c ∷ text) h = ground (arith, h, Bool-cases (is_space c))

trim_right-solid : (text : List ℕ) → any is_space text ≡ false → trim_right text ≡ text
unfolding trim_right any
trim_right-solid [] h = refl
trim_right-solid (c ∷ text) h = ground (arith, h, Bool-cases (is_space c), trim_right-solid text)

pub same_bytes-sym : (xs ys : List ℕ) → same_bytes xs ys ≡ same_bytes ys xs
same_bytes-sym [] [] = refl
same_bytes-sym [] (y ∷ ys) = refl
same_bytes-sym (x ∷ xs) [] = refl
same_bytes-sym (x ∷ xs) (y ∷ ys) = ground (arith, Bool-cases (x == y), same_bytes-sym xs ys)
