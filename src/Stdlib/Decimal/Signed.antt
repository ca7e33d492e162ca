-- ===== src/Stdlib/Decimal/Signed.antt =====
-- `i64toa_r` and `itoa_r`: the notation of a signed number, with its sign.
use nolibc.Prelude.{
  ℕ, ◌+◌, ◌^◌, ◌≤◌, ◌<◌, ◌≡◌, ◌∙◌, some, List, [], ◌∷◌, ◌++◌, arith, if◌then◌else◌, length, inl,
  inr, Bool-cases,
}
use nolibc.Prelude.Words.{neg64, is_neg64}
use nolibc.Mem.{Mem, poke, write_all, CStr}
use nolibc.Mem.Laws.{SameOutside, SameOutside-terminated, CStr-write_all}
use nolibc.Str.Compare.Laws.{NonZero}
use nolibc.Stdlib.Decimal.{i64toa_r, itoa_r}
use nolibc.Stdlib.Decimal.Spec.{length-decimal, length-decimal_of_lt}
use nolibc.Stdlib.Decimal.Digits.{decimal64, u64toa_r-write_all, utoa_r-u64toa_r, decimal64-NonZero}

-- a minus sign and the notation of the magnitude, or just the notation
abbrev pub signed_decimal : ℕ → List ℕ
signed_decimal n = if is_neg64 n then b'-' ∷ decimal64 (neg64 n) else decimal64 n

pub i64toa_r-write_all :
    (m : Mem) (n buffer : ℕ)
    → n < 2 ^ 64
    → i64toa_r m n buffer
      ≡ some (write_all m buffer (signed_decimal n ++ 0 ∷ []), length (signed_decimal n))
unfolding i64toa_r write_all
i64toa_r-write_all m n buffer lt = elim (Bool-cases (is_neg64 n)) [
  | inl minus ↦
      rw (minus, u64toa_r-write_all (poke m buffer b'-') (neg64 n) (buffer + 1) (omega arith))
        (ground arith)
  | inr plus ↦ rw plus (u64toa_r-write_all m n buffer lt)
]

pub itoa_r-i64toa_r : (m : Mem) (n buffer : ℕ) → itoa_r m n buffer ≡ i64toa_r m n buffer
unfolding itoa_r i64toa_r
itoa_r-i64toa_r m n buffer =
    rw (utoa_r-u64toa_r m n buffer, utoa_r-u64toa_r (poke m buffer b'-') (neg64 n) (buffer + 1))

pub itoa_r-write_all :
    (m : Mem) (n buffer : ℕ)
    → n < 2 ^ 64
    → itoa_r m n buffer
      ≡ some (write_all m buffer (signed_decimal n ++ 0 ∷ []), length (signed_decimal n))
itoa_r-write_all m n buffer lt = itoa_r-i64toa_r m n buffer ∙ i64toa_r-write_all m n buffer lt

pub signed_decimal-NonZero : (n : ℕ) → n < 2 ^ 64 → NonZero (signed_decimal n)
signed_decimal-NonZero n lt = elim (Bool-cases (is_neg64 n)) [
  | inl minus ↦ rw minus (omega arith, decimal64-NonZero (neg64 n) (omega arith))
  | inr plus ↦ rw plus (decimal64-NonZero n lt)
]

pub length-signed_decimal : (n : ℕ) → n < 2 ^ 64 → length (signed_decimal n) ≤ 20
length-signed_decimal n lt = elim (Bool-cases (is_neg64 n)) [
  | inl minus ↦ rw minus (omega (arith, length-magnitude (neg64 n) (ground arith)))
  | inr plus ↦ rw plus (length-decimal 19 n).1
]
  where
    length-magnitude : (k : ℕ) → k ≤ 2 ^ 63 → length (decimal64 k) ≤ 19
    length-magnitude k le = length-decimal_of_lt 19 18 k (omega arith) (omega arith)

-- For every 64-bit pattern i64toa_r returns, leaves the signed decimal notation as a terminated
-- string of at most 21 bytes with its terminator, changes no byte outside the 21 bytes of the
-- buffer, and returns the number of characters.
pub i64toa_r-fits :
    (m : Mem) (n buffer : ℕ)
    → n < 2 ^ 64
    → (m' : Mem) × (i64toa_r m n buffer ≡ some (m', length (signed_decimal n)))
      × CStr m' buffer (signed_decimal n)
      × (length (signed_decimal n) + 1 ≤ 21)
      × SameOutside buffer 21 m m'
i64toa_r-fits m n buffer lt = (
  write_all m buffer (signed_decimal n ++ 0 ∷ []),
  i64toa_r-write_all m n buffer lt,
  CStr-write_all m buffer (signed_decimal n) (signed_decimal-NonZero n lt),
  omega (arith, length-signed_decimal n lt),
  λ a out.
      SameOutside-terminated m buffer (signed_decimal n) a
        (omega (arith, length-signed_decimal n lt)),
)
