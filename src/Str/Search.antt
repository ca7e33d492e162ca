-- ===== src/Str/Search.antt =====
-- `strstr` of string.h.
pub mod Laws
use nolibc.Prelude.{ℕ, zero, suc, ◌+◌, ◌-◌, Option, none, some, ◌==◌, ltb, if◌then◌else◌, ◌>>=◌}
use nolibc.Prelude.Int.{ℤ, pos, negsuc}
use nolibc.Mem.{Mem}
use nolibc.Str.Scan.{null, strlen}
use nolibc.Str.Block.{memcmp}

abbrev is_zero : ℤ → ℕ → ℕ → ℕ
is_zero (pos zero) a b = a
is_zero _ a b = b

-- `while (len_haystack >= len_needle)`, with `n` rounds left
strstr_loop : ℕ → Mem → ℕ → ℕ → ℕ → ℕ
strstr_loop zero m haystack needle len_needle = null
strstr_loop (suc n) m haystack needle len_needle =
    let rest = strstr_loop n m (haystack + 1) needle len_needle in
    is_zero (memcmp m haystack needle len_needle) haystack rest

-- there are `len_haystack - len_needle + 1` rounds, none if the needle is longer
unfoldable pub strstr : ℕ → Mem → ℕ → ℕ → Option ℕ
unfolding strstr_loop
strstr fuel m haystack needle = do
  len_needle ← strlen fuel m needle
  if len_needle == 0 then some null else do
    len_haystack ← strlen fuel m haystack
    some (strstr_loop (len_haystack + 1 - len_needle) m haystack needle len_needle)
