-- ===== src/Stdio/Scanf/Numbers.antt =====
-- What `vsscanf` makes of a number that printf wrote.
use nolibc.Prelude.{
  ℕ, ◌+◌, ◌^◌, ◌≤◌, ◌<◌, ◌≡◌, ◌∙◌, ◌⊎◌, inl, inr, refl, ap, true, false, some, List, [], ◌∷◌, ◌++◌,
  arith, length, append-nil, All, if◌then◌else◌, Bool-cases,
}
use mathlib.Core.Path.{subst}
use nolibc.Prelude.Words.{is_neg64, neg64}
use nolibc.Mem.{Mem, Bytes, CStr}
use nolibc.Mem.Laws.{Bytes-front, Bytes-CStr}
use nolibc.Stdlib.Decimal.Spec.{IsDigit, value, decimal-IsDigit, value-decimal, length-decimal}
use nolibc.Stdlib.Decimal.Digits.{decimal64}
use nolibc.Stdlib.Decimal.Signed.{signed_decimal}
use nolibc.Stdlib.Strtox.{digit, strtox, strtoll, strtoull, long_min, long_max, ulong_max}
use nolibc.Stdlib.Strtox.Spec.{IsStop}
use nolibc.Stdlib.Strtox.Results.{
  IsDigitOf-digits, value_in-value, strtox_fits, strtox_fits_negative,
}

-- what follows a number begins with no digit
abbrev pub Stops : List ℕ → Type 0
Stops [] = Unit
Stops (c ∷ t) = (c < b'0') ⊎ (b'9' < c)

terminated : (m : Mem) (p : ℕ) (s : List ℕ) → CStr m p s → Bytes m p (s ++ 0 ∷ [])
terminated m p [] h = (h, tt)
terminated m p (c ∷ s) h = (h.0, terminated m (p + 1) s h.2)

is_stop : (c : ℕ) → (c < b'0') ⊎ (b'9' < c) → IsStop 10 c
unfolding digit
is_stop c h d e = ground arith

-- the byte behind a number
next_byte :
    (m : Mem) (p : ℕ) (s t : List ℕ)
    → CStr m p (s ++ t)
    → Stops t
    → (c : ℕ) × Bytes m p (s ++ c ∷ []) × ((c ≡ 0) ⊎ IsStop 10 c)
next_byte m p s [] h stop = (0, terminated m p s (rw (append-nil s) at h), inl refl)
next_byte m p s (c ∷ t) h stop =
    (c, Bytes-front m p c s t (Bytes-CStr m p (s ++ c ∷ t) h), inr (is_stop c stop))

module _ (fuel : ℕ) (m : Mem) (errno p : ℕ) (t : List ℕ) (stop : Stops t) where
  plus_digits :
      (hi : ℕ) (lo : ℕ) (s : List ℕ)
      → CStr m p (s ++ t)
      → All IsDigit s
      → 0 < length s
      → length s < fuel
      → hi < 2 ^ 64
      → value 0 s ≤ hi
      → strtox fuel m errno p 10 lo hi
        ≡ some (record { value = value 0 s; endptr = p + length s; errno = errno })
  plus_digits hi lo [] h d some_ f word fits = absurd (omega arith)
  plus_digits hi lo (x ∷ s) h d some_ f word fits =
      let (c, b, stops) = next_byte m p (x ∷ s) t h stop in
      let same = value_in-value (x ∷ s) 0 d in
      let here : p + 0 + length (x ∷ s) ≡ p + length (x ∷ s) = omega arith in
      strtox_fits fuel m errno p 10 lo hi c x [] s (omega arith, omega arith, omega arith) b tt
        (IsDigitOf-digits (x ∷ s) d) stops (omega arith) word (omega (arith, same))
      ∙ rw same (rw here refl)

  minus_digits :
      (hi : ℕ) (s : List ℕ)
      → CStr m p (b'-' ∷ (s ++ t))
      → All IsDigit s
      → 0 < length s
      → length s < fuel
      → value 0 s ≤ 2 ^ 63
      → strtox fuel m errno p 10 (2 ^ 63) hi
        ≡ some (record { value = neg64 (value 0 s); endptr = p + length (b'-' ∷ s); errno = errno })
  minus_digits hi [] h d some_ f fits = absurd (omega arith)
  minus_digits hi (x ∷ s) h d some_ f fits =
      let (c, b, stops) = next_byte m p (b'-' ∷ x ∷ s) t h stop in
      let same = value_in-value (x ∷ s) 0 d in
      let here : p + 0 + 1 + length (x ∷ s) ≡ p + length (b'-' ∷ x ∷ s) = omega arith in
      strtox_fits_negative fuel m errno p 10 (2 ^ 63) hi c x [] s
        (omega arith, omega arith, omega arith) b tt (IsDigitOf-digits (x ∷ s) d) stops
        (omega arith) (omega arith) (omega arith) (omega (arith, same))
      ∙ rw same (rw here refl)

is_neg64-ge : (v : ℕ) → is_neg64 v ≡ true → 2 ^ 63 ≤ v
is_neg64-ge v e = ground arith

is_neg64-lt : (v : ℕ) → is_neg64 v ≡ false → v < 2 ^ 63
is_neg64-lt v e = ground arith

-- `strtoll` reads back the notation of a signed number
pub strtoll-signed_decimal :
    (fuel : ℕ) (m : Mem) (errno p v : ℕ) (t : List ℕ)
    → v < 2 ^ 64
    → CStr m p (signed_decimal v ++ t)
    → Stops t
    → length (signed_decimal v) < fuel
    → strtoll fuel m errno p 10
      ≡ some (record { value = v; endptr = p + length (signed_decimal v); errno = errno })
unfolding strtoll
strtoll-signed_decimal fuel m errno p v t lt h stop f = elim (Bool-cases (is_neg64 v)) [
  | inl minus ↦
      let k = neg64 v in
      let size : 2 ^ 63 ≤ v = is_neg64-ge v minus in
      let same = value-decimal 19 k (omega arith) in
      let back : neg64 (value 0 (decimal64 k)) ≡ v = ap neg64 same ∙ omega (arith, size) in
      rw minus (
        minus_digits fuel m errno p t stop long_max (decimal64 k) (rw minus at h)
          (decimal-IsDigit 19 k (omega arith)) (length-decimal 19 k).0
          (omega (
            arith,
            subst (λ b. length (if b then b'-' ∷ decimal64 k else decimal64 v) < fuel) minus f,
          ))
          (omega (arith, same, size))
        ∙ rw back refl)
  | inr plus ↦
      let size : v < 2 ^ 63 = is_neg64-lt v plus in
      let same = value-decimal 19 v (omega arith) in
      rw plus (
        plus_digits fuel m errno p t stop long_max long_min (decimal64 v) (rw plus at h)
          (decimal-IsDigit 19 v (omega arith)) (length-decimal 19 v).0 (rw plus at f) (omega arith)
          (omega (arith, same, size))
        ∙ rw same refl)
]

-- and `strtoull` that of a number without a sign
pub strtoull-decimal64 :
    (fuel : ℕ) (m : Mem) (errno p v : ℕ) (t : List ℕ)
    → v < 2 ^ 64
    → CStr m p (decimal64 v ++ t)
    → Stops t
    → length (decimal64 v) < fuel
    → strtoull fuel m errno p 10
      ≡ some (record { value = v; endptr = p + length (decimal64 v); errno = errno })
unfolding strtoull
strtoull-decimal64 fuel m errno p v t lt h stop f =
    let same = value-decimal 19 v (omega arith) in
    plus_digits fuel m errno p t stop ulong_max 0 (decimal64 v) h
      (decimal-IsDigit 19 v (omega arith)) (length-decimal 19 v).0 f (omega arith)
      (omega (arith, same))
    ∙ rw same refl
