-- ===== src/Kiosk/Codes/Typed.antt =====
-- The ways of typing an activation code: internal/kiosk/domain/token.go.
use nestova.Base.{
  ℕ, ◌+◌, ◌≡◌, refl, ap, sym, not-false, ◌∙◌, zero, suc, Bool, true, false, not, ◌&&◌, ◌||◌, List,
  [], ◌∷◌, map, if◌then◌else◌, leb, ◌==◌, select, All, arith, Bool-cases, inl, inr, any, ◌%◌, ◌<◌,
  get_elem?, length,
}
use nestova.Text.{is_empty, is_space, to_upper, trim_left, trim_right}
use nestova.Kiosk.Codes.{
  activation_code_alphabet, or_nul, symbol, write_symbols, generate_activation_code,
  crockford_alias, is_separator, normalize_activation_code,
}

-- A text that stands for a code: with separators, in small letters, or with a letter for the digit
-- it looks like.
pub data TypedAs : List ℕ → List ℕ → Type 0 where
  nothing : TypedAs [] []
  hyphen : {text code : List ℕ} → TypedAs text code → TypedAs (45 ∷ text) code
  space : {text code : List ℕ} → TypedAs text code → TypedAs (32 ∷ text) code
  same : {c : ℕ} {text code : List ℕ} → TypedAs text code → TypedAs (c ∷ text) (c ∷ code)
  small :
      {c : ℕ} {text code : List ℕ}
      → (leb 65 c && leb c 90) ≡ true
      → TypedAs text code
      → TypedAs ((c + 32) ∷ text) (c ∷ code)
  letter_o : {text code : List ℕ} → TypedAs text code → TypedAs (79 ∷ text) (48 ∷ code)
  letter_i : {text code : List ℕ} → TypedAs text code → TypedAs (73 ∷ text) (49 ∷ code)
  letter_l : {text code : List ℕ} → TypedAs text code → TypedAs (76 ∷ text) (49 ∷ code)
  small_o : {text code : List ℕ} → TypedAs text code → TypedAs (111 ∷ text) (48 ∷ code)
  small_i : {text code : List ℕ} → TypedAs text code → TypedAs (105 ∷ text) (49 ∷ code)
  small_l : {text code : List ℕ} → TypedAs text code → TypedAs (108 ∷ text) (49 ∷ code)

-- A character that normalising keeps.
is_plain : ℕ → Bool
is_plain c = to_upper c == c && crockford_alias c == c && not (is_separator c) && not (is_space c)

abbrev IsPlain : ℕ → Type 0
IsPlain c = is_plain c ≡ true

record PlainFacts (c : ℕ) : Type 0 where
  upper : to_upper c ≡ c
  no_alias : crockford_alias c ≡ c
  kept : is_separator c ≡ false
  solid : is_space c ≡ false

plain_facts : (c : ℕ) → IsPlain c → PlainFacts c
unfolding is_plain
plain_facts c h = record {
  upper = ground (arith, h);
  no_alias = ground (arith, h);
  kept = ground (arith, h);
  solid = ground (arith, h);
}

small_solid : (c : ℕ) → (leb 65 c && leb c 90) ≡ true → is_space (c + 32) ≡ false
unfolding is_space
small_solid c h = ground (arith, h)

small_upper : (c : ℕ) → (leb 65 c && leb c 90) ≡ true → to_upper (c + 32) ≡ c
small_upper c h = ground (arith, h)

abbrev strip : List ℕ → List ℕ
strip text = map crockford_alias (select (λ c. not (is_separator c)) (map to_upper text))

-- White space that is no separator is not in the text.
abbrev IsClean : ℕ → Type 0
IsClean c = is_space c ≡ true → is_separator (to_upper c) ≡ true

strip-trim_left : (text : List ℕ) → All IsClean text → strip (trim_left text) ≡ strip text
unfolding trim_left select
strip-trim_left [] h = refl
strip-trim_left (c ∷ text) (h, hs) = elim (Bool-cases (is_space c)) [
  | inl t ↦ rw (t, h t) (strip-trim_left text hs)
  | inr t ↦ rw t refl
]

trim_left-IsClean : (text : List ℕ) → All IsClean text → All IsClean (trim_left text)
unfolding trim_left
trim_left-IsClean [] h = tt
trim_left-IsClean (c ∷ text) (h, hs) = elim (Bool-cases (is_space c)) [
  | inl t ↦ rw t (trim_left-IsClean text hs)
  | inr t ↦ rw t (h, hs)
]

-- One character more.
strip_cons :
    (c : ℕ) (rest text : List ℕ) → strip rest ≡ strip text → strip (c ∷ rest) ≡ strip (c ∷ text)
unfolding select
strip_cons c rest text h = elim (Bool-cases (is_separator (to_upper c))) [
  | inl sep ↦ rw sep h
  | inr keep ↦ rw keep (ap (λ r. crockford_alias (to_upper c) ∷ r) h)
]

strip_separator :
    (c : ℕ) (text : List ℕ) → is_separator (to_upper c) ≡ true → strip (c ∷ text) ≡ strip text
unfolding select
strip_separator c text h = rw h refl

trim_step :
    (c : ℕ) (rest text : List ℕ)
    → IsClean c
    → strip rest ≡ strip text
    → (b : Bool) → (is_space c && is_empty rest) ≡ b
    → strip (if b then [] else c ∷ rest) ≡ strip (c ∷ text)
trim_step c rest text clean h false e = strip_cons c rest text h
trim_step c [] text clean h true e = h ∙ sym (strip_separator c text (clean (ground (arith, e))))
trim_step c (d ∷ rest) text clean h true e = absurd (ground (arith, e, Bool-cases (is_space c)))

strip-trim_right : (text : List ℕ) → All IsClean text → strip (trim_right text) ≡ strip text
unfolding trim_right
strip-trim_right [] h = refl
strip-trim_right (c ∷ text) (h, hs) =
    trim_step c (trim_right text) text h (strip-trim_right text hs)
      (is_space c && is_empty (trim_right text)) refl

normalize-strip : (text : List ℕ) → All IsClean text → normalize_activation_code text ≡ strip text
unfolding normalize_activation_code
normalize-strip text h =
    strip-trim_right (trim_left text) (trim_left-IsClean text h) ∙ strip-trim_left text h

typed-strip : {text code : List ℕ} → TypedAs text code → All IsPlain code → strip text ≡ code
unfolding select
typed-strip nothing h = refl
typed-strip (hyphen t) h = typed-strip t h
typed-strip (space t) h = typed-strip t h
typed-strip (same {c} t) (h, hs) =
    let f = plain_facts c h in
    rw (f.upper, f.kept, f.no_alias) (ap (λ rest. c ∷ rest) (typed-strip t hs))
typed-strip (small {c} up t) (h, hs) =
    let f = plain_facts c h in
    rw (small_upper c up, f.kept, f.no_alias) (ap (λ rest. c ∷ rest) (typed-strip t hs))
typed-strip (letter_o t) (h, hs) = ap (λ rest. 48 ∷ rest) (typed-strip t hs)
typed-strip (letter_i t) (h, hs) = ap (λ rest. 49 ∷ rest) (typed-strip t hs)
typed-strip (letter_l t) (h, hs) = ap (λ rest. 49 ∷ rest) (typed-strip t hs)
typed-strip (small_o t) (h, hs) = ap (λ rest. 48 ∷ rest) (typed-strip t hs)
typed-strip (small_i t) (h, hs) = ap (λ rest. 49 ∷ rest) (typed-strip t hs)
typed-strip (small_l t) (h, hs) = ap (λ rest. 49 ∷ rest) (typed-strip t hs)

unspaced : (c : ℕ) → is_space c ≡ false → IsClean c
unspaced c h = λ s. absurd (cc)

typed-IsClean : {text code : List ℕ} → TypedAs text code → All IsPlain code → All IsClean text
unfolding is_space
typed-IsClean nothing h = tt
typed-IsClean (hyphen t) h = (unspaced 45 refl, typed-IsClean t h)
typed-IsClean (space t) h = (λ s. refl, typed-IsClean t h)
typed-IsClean (same {c} t) (h, hs) = (unspaced c (plain_facts c h).solid, typed-IsClean t hs)
typed-IsClean (small {c} up t) (h, hs) = (unspaced (c + 32) (small_solid c up), typed-IsClean t hs)
typed-IsClean (letter_o t) (h, hs) = (unspaced 79 refl, typed-IsClean t hs)
typed-IsClean (letter_i t) (h, hs) = (unspaced 73 refl, typed-IsClean t hs)
typed-IsClean (letter_l t) (h, hs) = (unspaced 76 refl, typed-IsClean t hs)
typed-IsClean (small_o t) (h, hs) = (unspaced 111 refl, typed-IsClean t hs)
typed-IsClean (small_i t) (h, hs) = (unspaced 105 refl, typed-IsClean t hs)
typed-IsClean (small_l t) (h, hs) = (unspaced 108 refl, typed-IsClean t hs)

-- The symbols of a code are plain.
get_elem?-IsPlain :
    (xs : List ℕ) (i : ℕ)
    → any (λ c. not (is_plain c)) xs ≡ false
    → i < length xs
    → IsPlain (or_nul (get_elem? xs i))
unfolding any
get_elem?-IsPlain [] i h k = absurd (omega arith)
get_elem?-IsPlain (x ∷ xs) zero h k = not-false _ (ground (arith, h))
get_elem?-IsPlain (x ∷ xs) (suc i) h k =
    get_elem?-IsPlain xs i (ground (arith, h, Bool-cases (is_plain x))) (omega (arith, k))

alphabet_plain : any (λ c. not (is_plain c)) activation_code_alphabet ≡ false
unfolding is_plain is_space any
alphabet_plain = refl

symbol-IsPlain : (v : ℕ) → IsPlain (symbol v)
unfolding symbol
symbol-IsPlain v = get_elem?-IsPlain activation_code_alphabet (v % 32) alphabet_plain (omega arith)

symbols-IsPlain : (bytes : List ℕ) → All IsPlain (map symbol bytes)
symbols-IsPlain [] = tt
symbols-IsPlain (v ∷ bytes) = (symbol-IsPlain v, symbols-IsPlain bytes)

-- However the code of some random bytes is typed, it reads as their symbols.
pub normalize-typed :
    (bytes text : List ℕ)
    → TypedAs text (map symbol bytes)
    → normalize_activation_code text ≡ map symbol bytes
normalize-typed bytes text t =
    normalize-strip text (typed-IsClean t (symbols-IsPlain bytes))
    ∙ typed-strip t (symbols-IsPlain bytes)

-- The text that is generated is one way of typing the code.
write_symbols-TypedAs :
    (i : ℕ) (bytes : List ℕ) → TypedAs (write_symbols i bytes) (map symbol bytes)
unfolding write_symbols
write_symbols-TypedAs i [] = TypedAs.nothing
write_symbols-TypedAs i (v ∷ bytes) = elim (Bool-cases (i == 3 || i == 6)) [
  | inl t ↦ rw t (TypedAs.same (TypedAs.hyphen (write_symbols-TypedAs (i + 1) bytes)))
  | inr t ↦ rw t (TypedAs.same (write_symbols-TypedAs (i + 1) bytes))
]

pub normalize-generate :
    (bytes : List ℕ) → normalize_activation_code (generate_activation_code bytes) ≡ map symbol bytes
normalize-generate bytes =
    normalize-typed bytes (generate_activation_code bytes) (write_symbols-TypedAs 0 bytes)
