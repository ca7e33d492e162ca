-- ===== src/Stdlib/Strtox/Results.antt =====
-- What `__strtox` returns for a number in decimal notation with no white space in front.
use nolibc.Prelude.{
  ℕ, zero, suc, ◌+◌, ◌-◌, ◌*◌, ◌^◌, ◌≤◌, ◌<◌, ◌∙◌, ◌≡◌, ◌≢◌, ◌⊎◌, inl, refl, true, false, not, ◌&&◌,
  some, List, [], ◌∷◌, ◌++◌, arith, ◌==◌, if◌then◌else◌, length, All, and_false, lt→leb, le→ltb,
}
use nolibc.Prelude.Words.{neg64, char32}
use nolibc.Errno.{einval, erange}
use nolibc.Ctype.{isspace}
use nolibc.Mem.{Mem, Bytes}
use nolibc.Mem.Laws.{Bytes-front, Bytes-behind}
use nolibc.Stdlib.Decimal.Spec.{IsDigit, value}
use nolibc.Stdlib.Strtox.{
  Parsed, Scan, scan, skip_spaces, prefix, digit, finish, read_number, strtox,
}
use nolibc.Stdlib.Strtox.Spec.{digit_value_of, IsDigitOf, IsStop, value_in}
use nolibc.Stdlib.Strtox.Digits.{run, digit_loop-run, run-fits, run_sound}

-- `strncmp` with a literal, as the model reads it
digit_of_IsDigit : (c : ℕ) → IsDigit c → digit c ≡ some (c - b'0')
unfolding digit
digit_of_IsDigit c h = ground arith

pub IsDigitOf-digits : (s : List ℕ) → All IsDigit s → All (IsDigitOf 10) s
IsDigitOf-digits [] h = tt
IsDigitOf-digits (c ∷ s) h =
    ((c - b'0', digit_of_IsDigit c h.0, omega arith), IsDigitOf-digits s h.1)

pub value_in-value : (s : List ℕ) (n : ℕ) → All IsDigit s → value_in 10 n s ≡ value n s
value_in-value [] n h = refl
value_in-value (c ∷ s) n h =
    rw (digit_value_of c (c - b'0') (digit_of_IsDigit c h.0))
      (value_in-value s (n * 10 + (c - b'0')) h.1)

-- an explicit base other than 0 and 16 takes no prefix
prefix_none : (m : Mem) (p base : ℕ) → base ≢ 0 → base ≢ 16 → prefix m p base ≡ (base, p)
unfolding prefix
prefix_none m p base nz nh = ground arith

-- a base outside 0 to 36 is refused
pub strtox-einval :
    (fuel : ℕ) (m : Mem) (errno p base lo hi : ℕ)
    → 36 < base
    → strtox fuel m errno p base lo hi ≡ some (record { value = 0; endptr = p; errno = einval })
unfolding strtox
strtox-einval fuel m errno p base lo hi h = ground arith

module _ (fuel : ℕ) (m : Mem) (errno p base lo hi c : ℕ) (s : List ℕ) where
  -- the digits `s` behind the sign, and what the loop makes of them
  read_unsigned :
      base ≢ 0
      → base ≢ 16
      → Bytes m p (s ++ c ∷ [])
      → All (IsDigitOf base) s
      → (c ≡ 0) ⊎ IsStop base c
      → length s < fuel
      → (m p == b'-') ≡ false
      → (m p == b'+') ≡ false
      → read_number fuel m errno p base lo hi
        ≡ some (
            finish errno false hi
              (scan (p + length s) (run base hi 0 false s).0 (run base hi 0 false s).1))
  unfolding read_number
  read_unsigned nz nh h d stop enough minus plus = rw (
    minus,
    plus,
    prefix_none m p base nz nh,
    and_false (not (lo == 0)),
    digit_loop-run fuel m base hi p 0 c (p + length s) false s h d stop enough refl,
  )

  -- the digits `s` behind a minus sign
  read_negative :
      (limit : ℕ)
      → base ≢ 0
      → base ≢ 16
      → (if not (lo == 0) && true then neg64 lo else hi) ≡ limit
      → Bytes m p (b'-' ∷ (s ++ c ∷ []))
      → All (IsDigitOf base) s
      → (c ≡ 0) ⊎ IsStop base c
      → length s < fuel
      → read_number fuel m errno p base lo hi
        ≡ some (
            finish errno true limit
              (scan (p + 1 + length s) (run base limit 0 false s).0 (run base limit 0 false s).1))
  unfolding read_number
  read_negative limit nz nh e h d stop enough = rw (
    h.0,
    prefix_none m (p + 1) base nz nh,
    e,
    digit_loop-run fuel m base limit (p + 1) 0 c (p + 1 + length s) false s h.1 d stop enough refl,
  )

-- white space in front is passed over
skip_spaces-lem :
    (fuel : ℕ) (m : Mem) (p c q : ℕ) (w : List ℕ)
    → Bytes m p (w ++ c ∷ [])
    → All (λ x. isspace (char32 x) ≡ true) w
    → isspace (char32 c) ≡ false
    → length w < fuel
    → q ≡ p + length w
    → skip_spaces fuel m p ≡ some q
unfolding skip_spaces
skip_spaces-lem zero m p c q w h sp out enough e = absurd (omega arith)
skip_spaces-lem (suc fuel) m p c q [] h sp out enough e = rw (h.0, out) (ground arith)
skip_spaces-lem (suc fuel) m p c q (x ∷ w) h sp out enough e =
    rw (h.0, sp.0) (skip_spaces-lem fuel m (p + 1) c q w h.1 sp.1 out (omega arith) (omega arith))

-- a digit is neither white space nor a sign
digit_plain :
    (base c : ℕ)
    → IsDigitOf base c
    → (isspace (char32 c) ≡ false) × ((c == b'-') ≡ false) × ((c == b'+') ≡ false)
unfolding digit isspace
digit_plain base c (d, e, lt) = (ground arith, ground arith, ground arith)

abbrev pub IsBlank : List ℕ → Type 0
IsBlank = All (λ x. isspace (char32 x) ≡ true)

-- the base is valid, and takes no prefix
abbrev pub IsPlainBase : ℕ → Type 0
IsPlainBase base = (1 ≤ base) × (base ≤ 36) × (base ≢ 16)

raised_by :
    (errno hi : ℕ) (t : Scan) (r : Parsed)
    → finish errno false hi t ≡ r
    → errno ≢ erange
    → r.errno ≡ erange
    → (t.overflow ≡ true) × (r.value ≡ hi)
unfolding finish
raised_by errno hi t r e quiet raised = ground arith

after_spaces :
    (fuel : ℕ) (m : Mem) (errno p base lo hi x : ℕ) (w t : List ℕ)
    → IsPlainBase base
    → Bytes m p (w ++ x ∷ t)
    → IsBlank w
    → isspace (char32 x) ≡ false
    → length w < fuel
    → strtox fuel m errno p base lo hi ≡ read_number fuel m errno (p + length w) base lo hi
unfolding strtox
after_spaces fuel m errno p base lo hi x w t plain h blank out enough = rw (
  lt→leb (2 ^ 31) base (omega arith),
  le→ltb 36 base plain.1,
  skip_spaces-lem fuel m p x (p + length w) w (Bytes-front m p x w t h) blank out enough refl,
)

module _ (fuel : ℕ) (m : Mem) (errno p base lo hi c x : ℕ) (w s : List ℕ)
    (plain : IsPlainBase base) where
  -- the result for white space, then digits of the base, the first of them `x`, up to `c`
  pub strtox-unsigned :
      Bytes m p (w ++ (x ∷ s ++ c ∷ []))
      → IsBlank w
      → All (IsDigitOf base) (x ∷ s)
      → (c ≡ 0) ⊎ IsStop base c
      → length w + length s + 1 < fuel
      → strtox fuel m errno p base lo hi
        ≡ some (
            finish errno false hi (
              scan
                (p + length w + length (x ∷ s))
                (run base hi 0 false (x ∷ s)).0
                (run base hi 0 false (x ∷ s)).1))
  strtox-unsigned h blank d stop enough =
      after_spaces fuel m errno p base lo hi x w (s ++ c ∷ []) plain h blank
        (digit_plain base x d.0).0 (omega arith)
      ∙ read_unsigned fuel m errno (p + length w) base lo hi c (x ∷ s) (omega arith) plain.2 digits
          d stop (omega arith) (rw digits.0 (digit_plain base x d.0).1)
          (rw digits.0 (digit_plain base x d.0).2)
    where
      digits : Bytes m (p + length w) (x ∷ s ++ c ∷ [])
      digits = Bytes-behind m p (p + length w) w (x ∷ s ++ c ∷ []) refl h

  -- the same behind a minus sign
  pub strtox-negative :
      (limit : ℕ)
      → (if not (lo == 0) && true then neg64 lo else hi) ≡ limit
      → Bytes m p (w ++ b'-' ∷ (x ∷ s ++ c ∷ []))
      → IsBlank w
      → All (IsDigitOf base) (x ∷ s)
      → (c ≡ 0) ⊎ IsStop base c
      → length w + length s + 1 < fuel
      → strtox fuel m errno p base lo hi
        ≡ some (
            finish errno true limit (
              scan
                (p + length w + 1 + length (x ∷ s))
                (run base limit 0 false (x ∷ s)).0
                (run base limit 0 false (x ∷ s)).1))
  strtox-negative limit e h blank d stop enough =
      after_spaces fuel m errno p base lo hi b'-' w (x ∷ s ++ c ∷ []) plain h blank
        (unfold isspace in refl) (omega arith)
      ∙ read_negative fuel m errno (p + length w) base lo hi c (x ∷ s) limit (omega arith) plain.2 e
          (Bytes-behind m p (p + length w) w (b'-' ∷ (x ∷ s ++ c ∷ [])) refl h) d stop (omega arith)

  -- For white space and digits of a base from 1 to 36 other than 16, up to a byte that is no
  -- digit, of a value within the upper limit, __strtox returns the value, points endptr at that
  -- byte and leaves errno alone.
  pub strtox_fits :
      Bytes m p (w ++ (x ∷ s ++ c ∷ []))
      → IsBlank w
      → All (IsDigitOf base) (x ∷ s)
      → (c ≡ 0) ⊎ IsStop base c
      → length w + length s + 1 < fuel
      → hi < 2 ^ 64
      → value_in base 0 (x ∷ s) ≤ hi
      → strtox fuel m errno p base lo hi
        ≡ some (record {
          value = value_in base 0 (x ∷ s);
          endptr = p + length w + length (x ∷ s);
          errno = errno;
        })
  strtox_fits h blank d stop enough lt fits =
      strtox-unsigned h blank d stop enough
      ∙ unfold finish in rw (run-fits base hi 0 false (x ∷ s) plain.0 lt fits)

  -- For white space, a minus sign and digits of a base from 1 to 36 other than 16, of a value
  -- within the lower limit of a signed type, __strtox returns the negated value, points endptr
  -- behind the digits and leaves errno alone.
  pub strtox_fits_negative :
      Bytes m p (w ++ b'-' ∷ (x ∷ s ++ c ∷ []))
      → IsBlank w
      → All (IsDigitOf base) (x ∷ s)
      → (c ≡ 0) ⊎ IsStop base c
      → length w + length s + 1 < fuel
      → 2 ^ 63 ≤ lo
      → lo < 2 ^ 64
      → value_in base 0 (x ∷ s) ≤ 2 ^ 64 - lo
      → strtox fuel m errno p base lo hi
        ≡ some (record {
          value = neg64 (value_in base 0 (x ∷ s));
          endptr = p + length w + 1 + length (x ∷ s);
          errno = errno;
        })
  strtox_fits_negative h blank d stop enough signed_ lt fits =
      strtox-negative (2 ^ 64 - lo) (limit lo signed_ lt) h blank d stop enough
      ∙ unfold finish in rw (run-fits base (2 ^ 64 - lo) 0 false (x ∷ s) plain.0 (omega arith) fits)
    where
      limit :
          (l : ℕ)
          → 2 ^ 63 ≤ l
          → l < 2 ^ 64
          → (if not (l == 0) && true then neg64 l else hi) ≡ 2 ^ 64 - l
      limit l le up = ground arith

  -- Where __strtox sets ERANGE for white space and digits without a sign, in a base from 1 to 36
  -- other than 16, the true value of the digits is above the upper limit, and the limit is the
  -- value returned.
  pub strtox-erange :
      Bytes m p (w ++ (x ∷ s ++ c ∷ []))
      → IsBlank w
      → All (IsDigitOf base) (x ∷ s)
      → (c ≡ 0) ⊎ IsStop base c
      → length w + length s + 1 < fuel
      → hi < 2 ^ 64
      → errno ≢ erange
      → (r : Parsed) → strtox fuel m errno p base lo hi ≡ some r
      → r.errno ≡ erange
      → (hi < value_in base 0 (x ∷ s)) × (r.value ≡ hi)
  strtox-erange h blank d stop enough lt quiet r e raised =
      let (over, is_limit) =
        raised_by errno hi
          (scan (p + length w + length (x ∷ s)) (run base hi 0 false (x ∷ s)).0
            (run base hi 0 false (x ∷ s)).1)
          r (ground (arith, strtox-unsigned h blank d stop enough)) quiet raised in
      (run_sound base hi 0 0 false (x ∷ s) plain.0 lt refl (inl refl) over, is_limit)
