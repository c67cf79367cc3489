-- ===== src/Kiosk/Codes.antt =====
-- The text of an activation code, as it is generated and as it is typed:
-- internal/kiosk/domain/token.go. Random bytes are an argument.

pub mod Typed
use nestova.Base.{
  ℕ, ◌+◌, ◌%◌, Bool, not, ◌||◌, List, [], ◌∷◌, map, Option, none, some, ◌==◌, if◌then◌else◌,
  get_elem?, select, length,
}
use nestova.Text.{to_upper, trim_space}

-- 0123456789ABCDEFGHJKMNPQRSTVWXYZ
abbrev pub activation_code_alphabet : List ℕ
activation_code_alphabet =
    48 ∷ 49 ∷ 50 ∷ 51 ∷ 52 ∷ 53 ∷ 54 ∷ 55 ∷ 56 ∷ 57 ∷ 65 ∷ 66 ∷ 67 ∷ 68 ∷ 69 ∷ 70 ∷ 71 ∷ 72 ∷ 74
    ∷ 75 ∷ 77 ∷ 78 ∷ 80 ∷ 81 ∷ 82 ∷ 83 ∷ 84 ∷ 86 ∷ 87 ∷ 88 ∷ 89 ∷ 90 ∷ []

abbrev pub or_nul : Option ℕ → ℕ
or_nul none = 0
or_nul (some c) = c

unfoldable pub symbol : ℕ → ℕ
symbol v = or_nul (get_elem? activation_code_alphabet (v % 32))

-- The symbols from the `i`th on, with hyphens after the fourth and the seventh.
unfoldable pub write_symbols : ℕ → List ℕ → List ℕ
write_symbols i [] = []
write_symbols i (v ∷ bytes) =
    let rest = write_symbols (i + 1) bytes in
    symbol v ∷ (if i == 3 || i == 6 then 45 ∷ rest else rest)

abbrev pub generate_activation_code : List ℕ → List ℕ
generate_activation_code bytes = write_symbols 0 bytes

-- O reads as 0, I and L as 1.
abbrev pub crockford_alias : ℕ → ℕ
crockford_alias c = if c == 79 then 48 else (if c == 73 || c == 76 then 49 else c)

abbrev pub is_separator : ℕ → Bool
is_separator c = c == 45 || c == 32

unfoldable pub normalize_activation_code : List ℕ → List ℕ
normalize_activation_code text =
    map crockford_alias (select (λ c. not (is_separator c)) (map to_upper (trim_space text)))
