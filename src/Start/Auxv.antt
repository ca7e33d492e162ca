-- ===== src/Start/Auxv.antt =====
-- `getauxval` of sys/auxv.h, and `getpagesize` of sys.h over it. The vector is a sequence of pairs of
-- words that ends with two zeros. `none` means that the fuel ran out.
pub mod First
use nolibc.Prelude.{
  ℕ, zero, suc, ◌+◌, ◌%◌, ◌^◌, ◌-◌, ◌&&◌, Option, none, some, ◌==◌, if◌then◌else◌, ◌>>=◌,
}
use nolibc.Prelude.Words.{neg32, is_neg32}
use nolibc.Errno.{enoent}
use nolibc.Mem.{Mem}
use nolibc.Mem.Words.{load64}

auxv_loop : ℕ → Mem → ℕ → ℕ → Option ℕ
auxv_loop zero m auxv type_ = none
auxv_loop (suc fuel) m auxv type_ =
    let rest = auxv_loop fuel m (auxv + 16) type_ in
    if load64 m auxv == 0 && load64 m (auxv + 8) == 0
    then some 0
    else if load64 m auxv == type_
    then some (load64 m (auxv + 8))
    else rest

unfoldable pub getauxval : ℕ → Mem → ℕ → ℕ → Option ℕ
unfolding auxv_loop
getauxval fuel m auxv type_ = if auxv == 0 then some 0 else auxv_loop fuel m auxv type_

-- the result and `errno`; `at_pagesz` is AT_PAGESZ
unfoldable pub getpagesize : ℕ → Mem → ℕ → ℕ → ℕ → Option (ℕ × ℕ)
getpagesize fuel m auxv at_pagesz errno = do
  found ← getauxval fuel m auxv at_pagesz
  let value = (if found % 2 ^ 32 == 0 then neg32 enoent else found % 2 ^ 32) in
      some (if is_neg32 value then (2 ^ 32 - 1, neg32 value) else (value, errno))
