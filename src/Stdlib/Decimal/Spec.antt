-- ===== src/Stdlib/Decimal/Spec.antt =====
-- Decimal notation: the digits of a number by division, and the number that digits spell.
use native.Mathlib.Nat.{div-add-mod', mod-lt}
use native.Mathlib.Decide.{dec_lt}
use nolibc.Prelude.{
  ℕ, zero, suc, ◌+◌, ◌-◌, ◌*◌, ◌/◌, ◌%◌, ◌≤◌, ◌<◌, ◌∙◌, ◌≡◌, ◌≢◌, refl, List, [], ◌∷◌, arith, ltb,
  if◌then◌else◌, length, All, lt→ltb, le→ltb,
}

-- the power of ten
abbrev pub pow10 : ℕ → ℕ
pow10 zero = 1
pow10 (suc n) = 10 * pow10 n

abbrev pub IsDigit : ℕ → Type 0
IsDigit c = (b'0' ≤ c) × (c ≤ b'9')

-- the number that digits spell behind `n`
abbrev pub value : ℕ → List ℕ → ℕ
value n [] = n
value n (c ∷ s) = value (n * 10 + (c - b'0')) s

-- exactly `k + 1` digits, with leading zeros
abbrev pub pad : ℕ → ℕ → List ℕ
pad zero n = (b'0' + n) ∷ []
pad (suc k) n = (b'0' + n / pow10 (suc k)) ∷ pad k (n % pow10 (suc k))

-- at most `k + 1` digits, with no leading zero
abbrev pub decimal : ℕ → ℕ → List ℕ
decimal zero n = pad zero n
decimal (suc k) n = if ltb n (pow10 (suc k)) then decimal k n else pad (suc k) n

pub pow10_pos : (k : ℕ) → 0 < pow10 k
pow10_pos zero = omega arith
pow10_pos (suc k) = omega (arith, pow10_pos k)

pub pow10_mono : (k j : ℕ) → k ≤ j → pow10 k ≤ pow10 j
pow10_mono zero j h = pow10_pos j
pow10_mono (suc k) zero h = absurd (omega arith)
pow10_mono (suc k) (suc j) h = omega (arith, pow10_mono k j (omega arith))

pub top_digit : (n p : ℕ) → 0 < p → n < 10 * p → n / p ≤ 9
top_digit n p h lt = grind arith

pub pad-IsDigit : (k n : ℕ) → n < pow10 (suc k) → All IsDigit (pad k n)
pad-IsDigit zero n h = omega arith
pad-IsDigit (suc k) n h = (
  omega (arith, top_digit n (pow10 (suc k)) (pow10_pos (suc k)) h),
  pad-IsDigit k (n % pow10 (suc k)) (mod-lt n (pow10_pos (suc k))),
)

regroup : (a q p r n : ℕ) → q * p + r ≡ n → (a * 10 + (b'0' + q - b'0')) * p + r ≡ a * (10 * p) + n
regroup a q p r n e = let e' : b'0' + q - b'0' ≡ q = omega arith in rw e' (omega arith)

pub value-pad : (k n a : ℕ) → n < pow10 (suc k) → value a (pad k n) ≡ a * pow10 (suc k) + n
value-pad zero n a h = omega arith
value-pad (suc k) n a h =
    value-pad k (n % pow10 (suc k)) (a * 10 + (b'0' + n / pow10 (suc k) - b'0'))
      (mod-lt n (pow10_pos (suc k)))
    ∙ regroup a (n / pow10 (suc k)) (pow10 (suc k)) (n % pow10 (suc k)) n
        (div-add-mod' n (pow10 (suc k)))

pub length-pad : (k n : ℕ) → length (pad k n) ≡ suc k
length-pad zero n = refl
length-pad (suc k) n = omega (arith, length-pad k (n % pow10 (suc k)))

-- The canonical notation: digits only, the number back, at most `k + 1` of them.
pub decimal-IsDigit : (k n : ℕ) → n < pow10 (suc k) → All IsDigit (decimal k n)
decimal-IsDigit zero n h = pad-IsDigit zero n h
decimal-IsDigit (suc k) n h = elim (dec_lt n (pow10 (suc k))) [
  | yes small ↦ rw (lt→ltb n (pow10 (suc k)) small) (decimal-IsDigit k n small)
  | no large ↦ rw (le→ltb n (pow10 (suc k)) (omega arith)) (pad-IsDigit (suc k) n h)
]

pub value-decimal : (k n : ℕ) → n < pow10 (suc k) → value 0 (decimal k n) ≡ n
value-decimal zero n h = value-pad zero n 0 h ∙ omega arith
value-decimal (suc k) n h = elim (dec_lt n (pow10 (suc k))) [
  | yes small ↦ rw (lt→ltb n (pow10 (suc k)) small) (value-decimal k n small)
  | no large ↦ rw (le→ltb n (pow10 (suc k)) (omega arith)) (value-pad (suc k) n 0 h ∙ omega arith)
]

pub length-decimal : (k n : ℕ) → (1 ≤ length (decimal k n)) × (length (decimal k n) ≤ suc k)
length-decimal zero n = omega arith
length-decimal (suc k) n = elim (dec_lt n (pow10 (suc k))) [
  | yes small ↦ rw (lt→ltb n (pow10 (suc k)) small) (omega (arith, length-decimal k n))
  | no large ↦ rw (le→ltb n (pow10 (suc k)) (omega arith)) (omega (arith, length-pad (suc k) n))
]

-- the first digit is no zero, but in the notation of zero
abbrev pub Canonical : List ℕ → Type 0
Canonical [] = ⊥
Canonical (c ∷ []) = Unit
Canonical (c ∷ d ∷ s) = c ≢ b'0'

leading : (n p : ℕ) → 0 < p → p ≤ n → n / p ≢ 0
leading n p h le = grind arith

pad-Canonical : (k n : ℕ) → pow10 (suc k) ≤ n → Canonical (pad (suc k) n)
pad-Canonical zero n le = omega (arith, leading n 10 (omega arith) (omega arith))
pad-Canonical (suc k) n le =
    omega (arith, leading n (pow10 (suc (suc k))) (pow10_pos (suc (suc k))) le)

pub decimal-Canonical : (k n : ℕ) → Canonical (decimal k n)
decimal-Canonical zero n = tt
decimal-Canonical (suc k) n = elim (dec_lt n (pow10 (suc k))) [
  | yes small ↦ rw (lt→ltb n (pow10 (suc k)) small) (decimal-Canonical k n)
  | no large ↦ rw (le→ltb n (pow10 (suc k)) (omega arith)) (pad-Canonical k n (omega arith))
]

-- a number below a power of ten has no more digits than the exponent
pub length-decimal_of_lt : (k j n : ℕ) → j ≤ k → n < pow10 (suc j) → length (decimal k n) ≤ suc j
length-decimal_of_lt zero j n le h = omega arith
length-decimal_of_lt (suc k) j n le h = elim (dec_lt n (pow10 (suc k))) [
  | yes small ↦ rw (lt→ltb n (pow10 (suc k)) small) (elim (dec_lt k j) [
    | yes gt ↦ omega (arith, length-decimal k n)
    | no at_most ↦ length-decimal_of_lt k j n (omega arith) h
  ])
  | no large ↦ rw (le→ltb n (pow10 (suc k)) (omega arith)) (elim (dec_lt j (suc k)) [
    | yes below ↦ absurd (omega (arith, pow10_mono (suc j) (suc k) below))
    | no same ↦ omega (arith, length-pad (suc k) n)
  ])
]
