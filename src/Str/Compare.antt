-- ===== src/Str/Compare.antt =====
-- `strcmp` and `strncmp` of string.h. The difference of two bytes is an `int`, here an integer.
pub mod Laws
use nolibc.Prelude.{ℕ, zero, suc, ◌+◌, Option, none, some, ◌==◌, if◌then◌else◌}
use nolibc.Prelude.Int.{ℤ, pos, sub_ℕ}
use nolibc.Mem.{Mem}

-- a round ends the loop at a difference, and at the end of `b`
unfoldable pub strcmp : ℕ → Mem → ℕ → ℕ → Option ℤ
strcmp zero m a b = none
strcmp (suc fuel) m a b =
    let rest = strcmp fuel m (a + 1) (b + 1) in
    if m a == m b
    then if m b == 0 then some (sub_ℕ (m a) (m b)) else rest
    else some (sub_ℕ (m a) (m b))

-- `diff` is the value that the last round left
strncmp_loop : ℕ → Mem → ℕ → ℕ → ℤ → ℤ
strncmp_loop zero m a b diff = diff
strncmp_loop (suc size) m a b diff =
    let rest = strncmp_loop size m (a + 1) (b + 1) (sub_ℕ (m a) (m b)) in
    if m a == m b then if m b == 0 then sub_ℕ (m a) (m b) else rest else sub_ℕ (m a) (m b)

unfoldable pub strncmp : Mem → ℕ → ℕ → ℕ → ℤ
unfolding strncmp_loop
strncmp m a b size = strncmp_loop size m a b (pos 0)
