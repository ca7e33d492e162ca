-- ===== src/Stdlib/Atol.antt =====
-- `atol` and `atoi` of stdlib.h. A `long` is its 64-bit pattern, an `int` its 32-bit pattern.
pub mod Value
use nolibc.Prelude.{
  ℕ, zero, suc, ◌+◌, ◌-◌, ◌*◌, ◌%◌, ◌^◌, Option, none, some, ◌==◌, ltb, if◌then◌else◌, ◌>>=◌,
}
use nolibc.Prelude.Words.{neg64, char64}
use nolibc.Mem.{Mem}

-- `d = (*s++) - '0'` as an `unsigned long`
digit : ℕ → ℕ
digit c = (char64 c + 2 ^ 64 - b'0') % 2 ^ 64

atol_loop : ℕ → Mem → ℕ → ℕ → Option ℕ
atol_loop zero m s ret = none
atol_loop (suc fuel) m s ret =
    let rest = atol_loop fuel m (s + 1) ((ret * 10 % 2 ^ 64 + digit (m s)) % 2 ^ 64) in
    if ltb 9 (digit (m s)) then some ret else rest

unfoldable pub atol : ℕ → Mem → ℕ → Option ℕ
unfolding atol_loop digit
atol fuel m s =
    if m s == b'-'
    then (do ret ← atol_loop fuel m (s + 1) 0; some (neg64 ret))
    else atol_loop fuel m s 0

unfoldable pub atoi : ℕ → Mem → ℕ → Option ℕ
atoi fuel m s = do n ← atol fuel m s; some (n % 2 ^ 32)
