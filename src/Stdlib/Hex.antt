-- ===== src/Stdlib/Hex.antt =====
-- `utoh_r` and `u64toh_r` of stdlib.h, where `unsigned long` has 64 bits. The shift `pos` is `4 * at`,
-- and falls by 4 in each round; it is below zero after the round for `at = 0`.
pub mod Digits
use nolibc.Prelude.{
  ℕ, zero, suc, ◌+◌, ◌-◌, ◌*◌, ◌/◌, ◌%◌, ◌^◌, Bool, not, ◌||◌, ◌==◌, ltb, if◌then◌else◌,
}
use nolibc.Mem.{Mem, poke}

-- `if (dig > 9) dig += 'a' - '0' - 10`
unfoldable pub letter : ℕ → ℕ
letter dig = if ltb 9 dig then dig + (b'a' - b'0' - 10) else dig

-- the write of one digit, the same lines in `u64toh_r` and in `utoh_r`
put_digit : Mem → ℕ → ℕ → ℕ → ℕ → Mem × ℕ
unfolding letter
put_digit m buffer at digits dig =
    if not (dig == 0) || not (digits == 0) || at == 0
    then (poke m (buffer + digits) ((b'0' + letter dig) % 256), digits + 1)
    else (m, digits)

-- `dig = in >> pos; in -= dig << pos`
utoh_loop : ℕ → Mem → ℕ → ℕ → ℕ → Mem × ℕ
utoh_loop zero m buffer n digits = put_digit m buffer 0 digits (n / 2 ^ (4 * 0))
utoh_loop (suc at) m buffer n digits =
    let dig = n / 2 ^ (4 * suc at) in
    let next = put_digit m buffer (suc at) digits dig in
    utoh_loop at next.0 buffer (n - dig * 2 ^ (4 * suc at)) next.1

unfoldable pub utoh_r : Mem → ℕ → ℕ → Mem × ℕ
unfolding utoh_loop put_digit
utoh_r m n buffer =
    let done = utoh_loop 15 m buffer n 0 in (poke done.0 (buffer + done.1) 0, done.1)

-- `dig = (in >> pos) & 0xF`
u64toh_loop : ℕ → Mem → ℕ → ℕ → ℕ → Mem × ℕ
u64toh_loop zero m buffer n digits = put_digit m buffer 0 digits (n / 2 ^ (4 * 0) % 16)
u64toh_loop (suc at) m buffer n digits =
    let next = put_digit m buffer (suc at) digits (n / 2 ^ (4 * suc at) % 16) in
    u64toh_loop at next.0 buffer n next.1

unfoldable pub u64toh_r : Mem → ℕ → ℕ → Mem × ℕ
unfolding u64toh_loop put_digit
u64toh_r m n buffer =
    let done = u64toh_loop 15 m buffer n 0 in (poke done.0 (buffer + done.1) 0, done.1)
