-- ===== src/Stdlib/Strtox/Spec.antt =====
-- The number that digits of a base spell, with no bound.
use nolibc.Prelude.{ℕ, ◌+◌, ◌*◌, ◌≤◌, ◌<◌, ◌≡◌, none, some, List, [], ◌∷◌}
use nolibc.Stdlib.Strtox.{digit}

-- the value of a character, 0 if it is no digit
unfoldable pub digit_value : ℕ → ℕ
digit_value c = elim (digit c) [ none ↦ 0 | some d ↦ d ]

-- a digit of the base
abbrev pub IsDigitOf : ℕ → ℕ → Type 0
IsDigitOf base c = (d : ℕ) × (digit c ≡ some d) × (d < base)

-- no digit of the base
abbrev pub IsStop : ℕ → ℕ → Type 0
IsStop base c = (d : ℕ) → digit c ≡ some d → base ≤ d

-- the number that the characters spell behind `n`
abbrev pub value_in : ℕ → ℕ → List ℕ → ℕ
value_in base n [] = n
value_in base n (c ∷ s) = value_in base (n * base + digit_value c) s

pub digit_value_of : (c d : ℕ) → digit c ≡ some d → digit_value c ≡ d
unfolding digit_value
digit_value_of c d e = rw (e, digit_value)
