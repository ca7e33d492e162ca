-- ===== src/Stdlib/Hex/Digits.antt =====
-- The hexadecimal notation of a 64-bit number, and both functions that write it.
use native.Mathlib.Decide.{dec_lt}
use native.Mathlib.Nat.{
  div-add-mod', mod-lt, mod-eq-sub-div-mul, div-div-eq-div-mul, div-eq_of_lt-le, mod-mod_of_dvd,
  dvd-mul_left, div-eq_of_lt, mod-eq_of_lt,
}
use native.Mathlib.Numerals.{towards_suc}
use nolibc.Prelude.{
  ℕ, zero, suc, ◌+◌, ◌-◌, ◌*◌, ◌/◌, ◌%◌, ◌^◌, ◌≤◌, ◌<◌, ◌∙◌, ◌≡◌, ◌≢◌, ◌⊎◌, inl, inr, refl, sym, ap,
  List, [], ◌∷◌, ◌++◌, arith, ltb, if◌then◌else◌, length, lt→ltb, le→ltb, All,
}
use nolibc.Mem.{Mem, poke, write_all, CStr}
use nolibc.Mem.Laws.{SameOutside, SameOutside-terminated, CStr-write_all, write_all-append}
use nolibc.Str.Compare.Laws.{NonZero}
use nolibc.Stdlib.Hex.{letter, put_digit, utoh_loop, utoh_r, u64toh_loop, u64toh_r}

abbrev pub pow16 : ℕ → ℕ
pow16 zero = 1
pow16 (suc k) = 16 * pow16 k

pow-pow16 : (k : ℕ) → 2 ^ (4 * k) ≡ pow16 k
pow-pow16 zero = refl
pow-pow16 (suc k) =
    let e : 4 * suc k ≡ 4 * k + 4 = omega arith in
    rw e (simp towards_suc (omega (arith, pow-pow16 k)))

pub pow16_pos : (k : ℕ) → 0 < pow16 k
pow16_pos zero = omega arith
pow16_pos (suc k) = omega (arith, pow16_pos k)

-- the character of a digit
abbrev pub hex_digit : ℕ → ℕ
hex_digit d = if ltb 9 d then d - 10 + b'a' else d + b'0'

-- the number that a character stands for
abbrev pub digit_value : ℕ → ℕ
digit_value c = if ltb b'9' c then c - b'a' + 10 else c - b'0'

abbrev pub value16 : ℕ → List ℕ → ℕ
value16 n [] = n
value16 n (c ∷ s) = value16 (n * 16 + digit_value c) s

abbrev pub pad16 : ℕ → ℕ → List ℕ
pad16 zero n = hex_digit n ∷ []
pad16 (suc k) n = hex_digit (n / pow16 (suc k)) ∷ pad16 k (n % pow16 (suc k))

-- at most `k + 1` digits, with no leading zero
abbrev pub hexadecimal : ℕ → ℕ → List ℕ
hexadecimal zero n = pad16 zero n
hexadecimal (suc k) n = if ltb n (pow16 (suc k)) then hexadecimal k n else pad16 (suc k) n

top16 : (n p : ℕ) → 0 < p → n < 16 * p → n / p < 16
top16 n p h lt = grind arith

digit_value-hex_digit : (d : ℕ) → d < 16 → digit_value (hex_digit d) ≡ d
digit_value-hex_digit d h = ground arith

regroup : (a q p r n : ℕ) → q * p + r ≡ n → (a * 16 + q) * p + r ≡ a * (16 * p) + n
regroup a q p r n e = omega arith

value16_step :
    (a d : ℕ) (s : List ℕ) → d < 16 → value16 a (hex_digit d ∷ s) ≡ value16 (a * 16 + d) s
value16_step a d s h = ap (λ x. value16 (a * 16 + x) s) (digit_value-hex_digit d h)

value-pad16 : (k n a : ℕ) → n < pow16 (suc k) → value16 a (pad16 k n) ≡ a * pow16 (suc k) + n
value-pad16 zero n a h = value16_step a n [] (omega arith) ∙ omega arith
value-pad16 (suc k) n a h =
    value16_step a (n / pow16 (suc k)) (pad16 k (n % pow16 (suc k)))
      (top16 n (pow16 (suc k)) (pow16_pos (suc k)) h)
    ∙ value-pad16 k (n % pow16 (suc k)) (a * 16 + n / pow16 (suc k)) (mod-lt n (pow16_pos (suc k)))
    ∙ regroup a (n / pow16 (suc k)) (pow16 (suc k)) (n % pow16 (suc k)) n
        (div-add-mod' n (pow16 (suc k)))

pub value-hexadecimal : (k n : ℕ) → n < pow16 (suc k) → value16 0 (hexadecimal k n) ≡ n
value-hexadecimal zero n h = value-pad16 zero n 0 h ∙ omega arith
value-hexadecimal (suc k) n h = elim (dec_lt n (pow16 (suc k))) [
  | yes small ↦ rw (lt→ltb n (pow16 (suc k)) small) (value-hexadecimal k n small)
  | no large ↦ rw (le→ltb n (pow16 (suc k)) (omega arith)) (value-pad16 (suc k) n 0 h ∙ omega arith)
]

-- the quotient of a remainder
mod-split : (n p : ℕ) → n % (16 * p) ≡ n / p % 16 * p + n % p
mod-split n p = omega (
  arith,
  mod-eq-sub-div-mul n (16 * p),
  split (n / p) (n / p / 16) (n / p % 16) p (n / (16 * p)) (omega arith)
      (let e : 16 * p ≡ p * 16 = omega arith in rw (e, ← div-div-eq-div-mul n p 16)),
  div-add-mod' n p,
)
  where
    split : (q a b p c : ℕ) → q ≡ 16 * a + b → c ≡ a → q * p ≡ c * (16 * p) + b * p
    split q a b p c e f = rw (e, f) (omega arith)

mod-quotient : (n p : ℕ) → 0 < p → n % (16 * p) / p ≡ n / p % 16
mod-quotient n p h =
    div-eq_of_lt-le p (omega (arith, mod-split n p)) (omega (arith, mod-split n p, mod-lt n h))

mod-remainder : (n p : ℕ) → 0 < p → n % (16 * p) % p ≡ n % p
mod-remainder n p h = mod-mod_of_dvd p n (dvd-mul_left p 16)

no_digit : (n q p r : ℕ) → q ≡ 0 → n ≡ q * p + r → r < p → p ≤ n → ⊥
no_digit n q p r e f lt le = let z : q * p ≡ 0 = rw e (omega arith) in omega arith

length-pad16 : (k n : ℕ) → length (pad16 k n) ≡ suc k
length-pad16 zero n = refl
length-pad16 (suc k) n = omega (arith, length-pad16 k (n % pow16 (suc k)))

module _ (buffer : ℕ) where
  -- a digit that is not suppressed
  put :
      (m : Mem) (at d dig p : ℕ)
      → dig < 16
      → (d ≢ 0) ⊎ ((dig ≢ 0) ⊎ (at ≡ 0))
      → p ≡ buffer + d
      → put_digit m buffer at d dig ≡ (poke m p (hex_digit dig), d + 1)
  unfolding put_digit letter
  put m at d dig p lt when e = rw e (ground arith)

  skip : (m : Mem) (at : ℕ) → put_digit m buffer (suc at) 0 0 ≡ (m, 0)
  unfolding put_digit
  skip m at = ground arith

  u64toh_loop-pad16 :
      (at : ℕ) (m : Mem) (n d p : ℕ)
      → (d ≢ 0) ⊎ ((n / pow16 at % 16 ≢ 0) ⊎ (at ≡ 0))
      → p ≡ buffer + d
      → u64toh_loop at m buffer n d ≡ (write_all m p (pad16 at (n % pow16 (suc at))), d + suc at)
  unfolding u64toh_loop write_all
  u64toh_loop-pad16 zero m n d p when e =
      rw (put m 0 d (n / 1 % 16) p (omega arith) when e) (ground arith)
  u64toh_loop-pad16 (suc at) m n d p when e =
      rw
        (
          pow-pow16 (suc at),
          put m (suc at) d (n / pow16 (suc at) % 16) p (omega arith) when e,
          mod-quotient n (pow16 (suc at)) (pow16_pos (suc at)),
          mod-remainder n (pow16 (suc at)) (pow16_pos (suc at)),
        )
        (u64toh_loop-pad16 at (poke m p (hex_digit (n / pow16 (suc at) % 16))) n (d + 1) (p + 1)
            (inl (omega arith)) (omega arith)
          ∙ ground arith)

  u64toh_skip :
      (at : ℕ) (m : Mem) (n : ℕ)
      → n / pow16 (suc at) % 16 ≡ 0
      → u64toh_loop (suc at) m buffer n 0 ≡ u64toh_loop at m buffer n 0
  unfolding u64toh_loop
  u64toh_skip at m n e = rw (pow-pow16 (suc at), e, skip m at)

  u64toh_loop-hexadecimal :
      (at : ℕ) (m : Mem) (n : ℕ)
      → u64toh_loop at m buffer n 0 ≡ (
        write_all m buffer (hexadecimal at (n % pow16 (suc at))),
        length (hexadecimal at (n % pow16 (suc at))),
      )
  u64toh_loop-hexadecimal zero m n =
      u64toh_loop-pad16 zero m n 0 buffer (inr (inr refl)) (omega arith)
  u64toh_loop-hexadecimal (suc at) m n =
      let p = pow16 (suc at) in
      elim (dec_lt (n % pow16 (suc (suc at))) (pow16 (suc at))) [
        | yes small ↦
            let none_there : n / p % 16 ≡ 0 =
              rw (← mod-quotient n p (pow16_pos (suc at))) (div-eq_of_lt small) in
            let same : n % pow16 (suc (suc at)) ≡ n % p =
              sym (mod-eq_of_lt small) ∙ mod-remainder n p (pow16_pos (suc at)) in
            rw (lt→ltb (n % pow16 (suc (suc at))) (pow16 (suc at)) small, same)
              (u64toh_skip at m n none_there ∙ u64toh_loop-hexadecimal at m n)
        | no large ↦
            let some_there : n / p % 16 ≢ 0 = λ e.
              no_digit (n % (16 * p)) (n / p % 16) p (n % p) e (mod-split n p)
                (mod-lt n (pow16_pos (suc at))) (omega arith) in
            rw
              (
                le→ltb (n % pow16 (suc (suc at))) (pow16 (suc at)) (omega arith),
                length-pad16 (suc at) (n % pow16 (suc (suc at))),
              )
              (u64toh_loop-pad16 (suc at) m n 0 buffer (inr (inl some_there)) (omega arith)
                ∙ ground arith)
      ]

  utoh_loop-u64toh_loop :
      (at : ℕ) (m : Mem) (n n' d : ℕ)
      → n' ≡ n % pow16 (suc at)
      → utoh_loop at m buffer n' d ≡ u64toh_loop at m buffer n d
  unfolding utoh_loop u64toh_loop
  utoh_loop-u64toh_loop zero m n n' d e = let dig : n' / 1 ≡ n / 1 % 16 = omega arith in rw dig
  utoh_loop-u64toh_loop (suc at) m n n' d e =
      let p = pow16 (suc at) in
      let dig : n' / p ≡ n / p % 16 = rw e (mod-quotient n p (pow16_pos (suc at))) in
      let rest : n' - n / p % 16 * p ≡ n % p = omega (arith, mod-split n p) in
      rw (pow-pow16 (suc at), dig)
        (utoh_loop-u64toh_loop at (put_digit m buffer (suc at) d (n / p % 16)).0 n
          (n' - n / p % 16 * p) (put_digit m buffer (suc at) d (n / p % 16)).1 rest)

-- On 64 bits utoh_r, which takes each digit off the number, and u64toh_r, which masks it, leave
-- the same memory and return the same count.
pub utoh_r-u64toh_r :
    (m : Mem) (n buffer : ℕ) → n < 2 ^ 64 → utoh_r m n buffer ≡ u64toh_r m n buffer
unfolding utoh_r u64toh_r
utoh_r-u64toh_r m n buffer lt = rw (utoh_loop-u64toh_loop buffer 15 m n n 0 (omega arith))

abbrev pub hex64 : ℕ → List ℕ
hex64 = hexadecimal 15

pub u64toh_r-write_all :
    (m : Mem) (n buffer : ℕ)
    → n < 2 ^ 64
    → u64toh_r m n buffer ≡ (write_all m buffer (hex64 n ++ 0 ∷ []), length (hex64 n))
unfolding u64toh_r write_all
u64toh_r-write_all m n buffer lt =
    let whole : n % pow16 16 ≡ n = omega arith in
    rw (
      u64toh_loop-hexadecimal buffer 15 m n,
      whole,
      ← write_all-append m buffer (buffer + length (hex64 n)) (hex64 n) (0 ∷ []) refl,
    )

-- the digits 0 to 9 and a to f
abbrev pub IsHexDigit : ℕ → Type 0
IsHexDigit c = ((b'0' ≤ c) × (c ≤ b'9')) ⊎ ((b'a' ≤ c) × (c ≤ b'f'))

hex_digit-IsHexDigit : (d : ℕ) → d < 16 → IsHexDigit (hex_digit d)
hex_digit-IsHexDigit d h = ground arith

pad16-IsHexDigit : (k n : ℕ) → n < pow16 (suc k) → All IsHexDigit (pad16 k n)
pad16-IsHexDigit zero n h = (hex_digit-IsHexDigit n (omega arith), tt)
pad16-IsHexDigit (suc k) n h = (
  hex_digit-IsHexDigit (n / pow16 (suc k)) (top16 n (pow16 (suc k)) (pow16_pos (suc k)) h),
  pad16-IsHexDigit k (n % pow16 (suc k)) (mod-lt n (pow16_pos (suc k))),
)

hexadecimal-IsHexDigit : (k n : ℕ) → n < pow16 (suc k) → All IsHexDigit (hexadecimal k n)
hexadecimal-IsHexDigit zero n h = pad16-IsHexDigit zero n h
hexadecimal-IsHexDigit (suc k) n h = elim (dec_lt n (pow16 (suc k))) [
  | yes small ↦ rw (lt→ltb n (pow16 (suc k)) small) (hexadecimal-IsHexDigit k n small)
  | no large ↦ rw (le→ltb n (pow16 (suc k)) (omega arith)) (pad16-IsHexDigit (suc k) n h)
]

-- what `u64toh_r` leaves in the buffer: the hexadecimal notation, at most 16 digits and a zero
abbrev pub Hex : Mem → ℕ → ℕ → Mem → ℕ → Type 0
Hex m n buffer m' len =
    (s : List ℕ) × CStr m' buffer s
    × (len ≡ length s)
    × All IsHexDigit s
    × (value16 0 s ≡ n)
    × (1 ≤ len)
    × (len ≤ 16)
    × SameOutside buffer (len + 1) m m'

hex_digit_nonzero : (d : ℕ) → hex_digit d ≢ 0
hex_digit_nonzero d = ground arith

pad16-NonZero : (k n : ℕ) → NonZero (pad16 k n)
pad16-NonZero zero n = (hex_digit_nonzero n, tt)
pad16-NonZero (suc k) n =
    (hex_digit_nonzero (n / pow16 (suc k)), pad16-NonZero k (n % pow16 (suc k)))

pub hexadecimal-NonZero : (k n : ℕ) → NonZero (hexadecimal k n)
hexadecimal-NonZero zero n = pad16-NonZero zero n
hexadecimal-NonZero (suc k) n = elim (dec_lt n (pow16 (suc k))) [
  | yes small ↦ rw (lt→ltb n (pow16 (suc k)) small) (hexadecimal-NonZero k n)
  | no large ↦ rw (le→ltb n (pow16 (suc k)) (omega arith)) (pad16-NonZero (suc k) n)
]

pub length-hexadecimal :
    (k n : ℕ) → (1 ≤ length (hexadecimal k n)) × (length (hexadecimal k n) ≤ suc k)
length-hexadecimal zero n = omega arith
length-hexadecimal (suc k) n = elim (dec_lt n (pow16 (suc k))) [
  | yes small ↦ rw (lt→ltb n (pow16 (suc k)) small) (omega (arith, length-hexadecimal k n))
  | no large ↦ rw (le→ltb n (pow16 (suc k)) (omega arith)) (omega (arith, length-pad16 (suc k) n))
]

-- For every 64-bit number u64toh_r leaves in the buffer, as a terminated string, from 1 to 16
-- bytes, each a digit from 0 to 9 or a letter from a to f, whose value in base 16 is the number,
-- writes no byte behind the terminator and returns their count.
pub u64toh_r-Hex :
    (m : Mem) (n buffer : ℕ)
    → n < 2 ^ 64
    → (m' : Mem) × (len : ℕ) × (u64toh_r m n buffer ≡ (m', len)) × Hex m n buffer m' len
u64toh_r-Hex m n buffer lt = (
  write_all m buffer (hex64 n ++ 0 ∷ []),
  length (hex64 n),
  u64toh_r-write_all m n buffer lt,
  (
    hex64 n,
    CStr-write_all m buffer (hex64 n) (hexadecimal-NonZero 15 n),
    refl,
    hexadecimal-IsHexDigit 15 n (omega arith),
    value-hexadecimal 15 n (omega arith),
    (length-hexadecimal 15 n).0,
    (length-hexadecimal 15 n).1,
    SameOutside-terminated m buffer (hex64 n),
  ),
)
