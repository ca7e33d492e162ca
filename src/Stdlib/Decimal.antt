-- ===== src/Stdlib/Decimal.antt =====
-- `utoa_r`, `itoa_r`, `u64toa_r` and `i64toa_r` of stdlib.h, and the functions that call them with
-- the static buffer. `unsigned long` has 64 bits, and a `long` is its bit pattern.
pub mod Spec
pub mod Digits
pub mod Signed
use nolibc.Prelude.{
  ℕ, zero, suc, ◌+◌, ◌-◌, ◌*◌, ◌%◌, ◌^◌, Bool, not, ◌||◌, Option, none, some, ◌==◌, ltb, leb,
  if◌then◌else◌, ◌>>=◌,
}
use nolibc.Prelude.Words.{neg64, is_neg64}
use nolibc.Mem.{Mem, poke}

-- `for (dig = 0, lim = 1; dig < pos; dig++) lim *= 10`, with `n` rounds left
power_loop : ℕ → ℕ → ℕ
power_loop zero lim = lim
power_loop (suc n) lim = power_loop n (lim * 10 % 2 ^ 64)

-- `for (dig = 0; in >= lim; dig++) in -= lim`: what is left of `in`, and `dig`
divide_loop : ℕ → ℕ → ℕ → ℕ → Option (ℕ × ℕ)
divide_loop zero n lim dig = none
divide_loop (suc fuel) n lim dig =
    let rest = divide_loop fuel (n - lim) lim (dig + 1) in if ltb n lim then some (n, dig) else rest

-- The body of the outer loop: the memory, what is left of `in`, and the number of digits written.
-- `in` falls in each round of the division, so it needs at most `in + 1` units of fuel.
digit_round : ℕ → Mem → ℕ → ℕ → ℕ → Option (Mem × ℕ × ℕ)
digit_round at m buffer n digits =
    let lim = power_loop at 1 in
    if not (digits == 0) || leb lim n || at == 0
    then (do
      (n', dig) ← divide_loop (suc n) n lim 0
      some (poke m (buffer + digits) ((b'0' + dig) % 256), n', digits + 1))
    else some (m, n, digits)

-- `do … while (pos--)`, where `pos` is `at`
digits_loop : ℕ → Mem → ℕ → ℕ → ℕ → Option (Mem × ℕ)
digits_loop zero m buffer n digits = do
  (m', n', digits') ← digit_round 0 m buffer n digits
  some (m', digits')
digits_loop (suc at) m buffer n digits = do
  (m', n', digits') ← digit_round (suc at) m buffer n digits
  digits_loop at m' buffer n' digits'

-- the memory left behind, and the number of characters emitted
unfoldable pub u64toa_r : Mem → ℕ → ℕ → Option (Mem × ℕ)
unfolding digits_loop digit_round divide_loop power_loop
u64toa_r m n buffer = do
  (m', digits) ← digits_loop 19 m buffer n 0
  some (poke m' (buffer + digits) 0, digits)

-- with a 64-bit `unsigned long` it starts at the same digit
unfoldable pub utoa_r : Mem → ℕ → ℕ → Option (Mem × ℕ)
unfolding digits_loop digit_round divide_loop power_loop
utoa_r m n buffer = do
  (m', digits) ← digits_loop 19 m buffer n 0
  some (poke m' (buffer + digits) 0, digits)

unfoldable pub i64toa_r : Mem → ℕ → ℕ → Option (Mem × ℕ)
i64toa_r m n buffer =
    if is_neg64 n
    then (do (m', len) ← u64toa_r (poke m buffer b'-') (neg64 n) (buffer + 1); some (m', 1 + len))
    else u64toa_r m n buffer

unfoldable pub itoa_r : Mem → ℕ → ℕ → Option (Mem × ℕ)
itoa_r m n buffer =
    if is_neg64 n
    then (do (m', len) ← utoa_r (poke m buffer b'-') (neg64 n) (buffer + 1); some (m', 1 + len))
    else utoa_r m n buffer

unfoldable pub ltoa_r : Mem → ℕ → ℕ → Option (Mem × ℕ)
ltoa_r m n buffer = do (m', len) ← itoa_r m n buffer; some (m', buffer)
