-- ===== src/Stdlib/Atol/Value.antt =====
-- `atol` reads a decimal number, and reads back what `itoa_r` writes.
use nolibc.Prelude.{
  ℕ, zero, suc, ◌+◌, ◌-◌, ◌*◌, ◌%◌, ◌^◌, ◌≤◌, ◌<◌, ◌∙◌, ◌≡◌, ◌≢◌, ◌⊎◌, ap, some, List, [], ◌∷◌,
  ◌++◌, arith, ltb, length, All, le→ltb, true, false, inl, inr, ◌==◌, Bool-cases,
}
use nolibc.Prelude.Words.{neg64, is_neg64}
use nolibc.Mem.{Mem, Bytes, write_all}
use nolibc.Mem.Laws.{Bytes-write_all}
use nolibc.Stdlib.Decimal.{itoa_r}
use nolibc.Stdlib.Decimal.Spec.{IsDigit, value, decimal-IsDigit, length-decimal, value-decimal}
use nolibc.Stdlib.Decimal.Digits.{decimal64}
use nolibc.Stdlib.Decimal.Signed.{signed_decimal, itoa_r-write_all}
use nolibc.Stdlib.Atol.{digit, atol_loop, atol}

-- the value modulo `2 ^ 64` depends on the start modulo `2 ^ 64` only
value-mod :
    (s : List ℕ) (a b : ℕ) → a % 2 ^ 64 ≡ b % 2 ^ 64 → value a s % 2 ^ 64 ≡ value b s % 2 ^ 64
value-mod [] a b e = e
value-mod (c ∷ s) a b e = value-mod s (a * 10 + (c - b'0')) (b * 10 + (c - b'0')) (omega arith)

digit_of_IsDigit : (c : ℕ) → IsDigit c → digit c ≡ c - b'0'
unfolding digit
digit_of_IsDigit c h = ground arith

digit_above : (c : ℕ) → c < 256 → (c < b'0') ⊎ (b'9' < c) → ltb 9 (digit c) ≡ true
unfolding digit
digit_above c byte out = ground arith

atol_loop-value :
    (fuel : ℕ) (m : Mem) (p r c : ℕ) (s : List ℕ)
    → Bytes m p (s ++ c ∷ [])
    → All IsDigit s
    → (c < b'0') ⊎ (b'9' < c)
    → c < 256
    → r < 2 ^ 64
    → length s < fuel
    → atol_loop fuel m p r ≡ some (value r s % 2 ^ 64)
unfolding atol_loop
atol_loop-value zero m p r c s h d out byte lt enough = absurd (omega arith)
atol_loop-value (suc fuel) m p r c [] h d out byte lt enough =
    rw h.0 (ground (arith, digit_above c byte out))
atol_loop-value (suc fuel) m p r c (x ∷ s) h d out byte lt enough =
    rw (h.0, digit_of_IsDigit x d.0, le→ltb 9 (x - b'0') (omega arith))
      (atol_loop-value fuel m (p + 1) ((r * 10 % 2 ^ 64 + (x - b'0')) % 2 ^ 64) c s h.1 d.1 out byte
          (omega arith) (omega arith)
        ∙ ap some (
            value-mod s ((r * 10 % 2 ^ 64 + (x - b'0')) % 2 ^ 64) (r * 10 + (x - b'0'))
              (omega arith)))

module _ (fuel : ℕ) (m : Mem) (p c : ℕ) (s : List ℕ) where
  -- Behind a minus sign, `atol` reads digits up to the first other byte and returns their value
  -- negated, as a `long`, modulo `2 ^ 64`.
  pub atol_negative :
      Bytes m p (b'-' ∷ (s ++ c ∷ []))
      → All IsDigit s
      → (c < b'0') ⊎ (b'9' < c)
      → c < 256
      → length s < fuel
      → atol fuel m p ≡ some (neg64 (value 0 s % 2 ^ 64))
  unfolding atol
  atol_negative h d out byte enough =
      rw (h.0, atol_loop-value fuel m (p + 1) 0 c s h.1 d out byte (omega arith) enough)

  -- With no minus sign in front, `atol` reads digits up to the first other byte and returns their
  -- value modulo `2 ^ 64`.
  pub atol_positive :
      Bytes m p (s ++ c ∷ [])
      → All IsDigit s
      → (c < b'0') ⊎ (b'9' < c)
      → c ≢ b'-'
      → c < 256
      → length s < fuel
      → atol fuel m p ≡ some (value 0 s % 2 ^ 64)
  unfolding atol
  atol_positive h d out no_sign byte enough =
      rw (first_byte s h d) (atol_loop-value fuel m p 0 c s h d out byte (omega arith) enough)
    where
      first_byte : (t : List ℕ) → Bytes m p (t ++ c ∷ []) → All IsDigit t → (m p == b'-') ≡ false
      first_byte [] h d = ground arith
      first_byte (x ∷ t) h d = ground arith

long_of_magnitude : (n k : ℕ) → 2 ^ 63 ≤ n → n < 2 ^ 64 → k ≡ 2 ^ 64 - n → neg64 (k % 2 ^ 64) ≡ n
long_of_magnitude n k lo hi e = omega arith

-- For every long, itoa_r returns and atol reads its text back as the same long, given fuel above
-- 20.
pub atol-itoa_r :
    (fuel : ℕ) (m : Mem) (n buffer : ℕ)
    → n < 2 ^ 64
    → 20 < fuel
    → (m' : Mem) × (len : ℕ) × (itoa_r m n buffer ≡ some (m', len)) × (atol fuel m' buffer ≡ some n)
atol-itoa_r fuel m n buffer lt enough = (
  write_all m buffer (signed_decimal n ++ 0 ∷ []),
  length (signed_decimal n),
  itoa_r-write_all m n buffer lt,
  elim (Bool-cases (is_neg64 n)) [
    | inl minus ↦ rw minus (
        atol_negative fuel _ buffer 0 (decimal64 (neg64 n))
          (Bytes-write_all m buffer (b'-' ∷ (decimal64 (neg64 n) ++ 0 ∷ [])))
          (decimal-IsDigit 19 (neg64 n) (omega arith)) (omega arith) (omega arith)
          (omega (arith, length-decimal 19 (neg64 n)))
        ∙ ap some (
            long_of_magnitude n (value 0 (decimal64 (neg64 n))) (ground arith) lt
              (value-decimal 19 (neg64 n) (omega arith) ∙ ground arith)))
    | inr plus ↦ rw plus (
        atol_positive fuel _ buffer 0 (decimal64 n)
          (Bytes-write_all m buffer (decimal64 n ++ 0 ∷ [])) (decimal-IsDigit 19 n (omega arith))
          (omega arith) (omega arith) (omega arith) (omega (arith, length-decimal 19 n))
        ∙ ap some (ap (λ k. k % 2 ^ 64) (value-decimal 19 n (omega arith)) ∙ omega arith))
  ],
)
