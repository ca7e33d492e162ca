-- ===== src/Str/Copy.antt =====
-- `strcpy`, `strlcat`, `strlcpy`, `strncat` and `strncpy` of string.h. A function returns the memory
-- that it leaves behind and its result.
pub mod Strcpy
pub mod Strlcpy
pub mod Strlcat
pub mod Strncat
pub mod Strncpy
use nolibc.Prelude.{
  ℕ, zero, suc, ◌+◌, ◌-◌, Bool, true, false, Option, none, some, ◌==◌, ltb, if◌then◌else◌, ◌>>=◌,
}
use nolibc.Mem.{Mem, poke}
use nolibc.Str.Scan.{strlen, strnlen}

strcpy_loop : ℕ → Mem → ℕ → ℕ → Option Mem
strcpy_loop zero m dst src = none
strcpy_loop (suc fuel) m dst src =
    let m' = poke m dst (m src) in
    let rest = strcpy_loop fuel m' (dst + 1) (src + 1) in if m src == 0 then some m' else rest

unfoldable pub strcpy : ℕ → Mem → ℕ → ℕ → Option (Mem × ℕ)
unfolding strcpy_loop
strcpy fuel m dst src = do m' ← strcpy_loop fuel m dst src; some (m', dst)

-- The rounds of `while (len + 1 < size)`, of which `n` are left: `dst`, the length so far, and `src`
-- as they stand when the loop ends. `len + 1` does not wrap, since `len` is at most `size`.
strlcat_loop : ℕ → Mem → ℕ → ℕ → ℕ → Mem × ℕ × ℕ
strlcat_loop zero m dst len src = (m, len, src)
strlcat_loop (suc n) m dst len src =
    let m' = poke m (dst + len) (m src) in
    let rest = strlcat_loop n m' dst (len + 1) (src + 1) in
    if m' src == 0 then (m', len, src) else rest

-- `while (*src++) len++` adds the length of what is left
strlcat_finish : ℕ → ℕ → ℕ → Mem × ℕ × ℕ → Option (Mem × ℕ)
strlcat_finish fuel dst size (m, len, src) =
    let m' = if ltb len size then poke m (dst + len) 0 else m in
    do n ← strlen fuel m' src; some (m', len + n)

unfoldable pub strlcat : ℕ → Mem → ℕ → ℕ → ℕ → Option (Mem × ℕ)
unfolding strlcat_loop strlcat_finish
strlcat fuel m dst src size =
    let len = strnlen m dst size in
    strlcat_finish fuel dst size (strlcat_loop (size - 1 - len) m dst len src)

-- The rounds of `for (len = 0; len < size; len++)`, of which `n` are left. The last component says
-- whether the loop returned from inside.
strlcpy_loop : ℕ → Mem → ℕ → ℕ → ℕ → Mem × ℕ × Bool
strlcpy_loop zero m dst src len = (m, len, false)
strlcpy_loop (suc n) m dst src len =
    let m' = poke m (dst + len) (m (src + len)) in
    let rest = strlcpy_loop n m' dst src (len + 1) in
    if m' (dst + len) == 0 then (m', len, true) else rest

strlcpy_finish : ℕ → ℕ → ℕ → ℕ → Mem × ℕ × Bool → Option (Mem × ℕ)
strlcpy_finish fuel dst src size (m, len, true) = some (m, len)
strlcpy_finish fuel dst src size (m, len, false) =
    let m' = if size == 0 then m else poke m (dst + (size - 1)) 0 in
    do n ← strlen fuel m' (src + len); some (m', len + n)

unfoldable pub strlcpy : ℕ → Mem → ℕ → ℕ → ℕ → Option (Mem × ℕ)
unfolding strlcpy_loop strlcpy_finish
strlcpy fuel m dst src size = strlcpy_finish fuel dst src size (strlcpy_loop size m dst src 0)

-- `while (size && (*dst = *src))`, then `*dst = 0`
strncat_loop : ℕ → Mem → ℕ → ℕ → Mem
strncat_loop zero m dst src = poke m dst 0
strncat_loop (suc size) m dst src =
    let m' = poke m dst (m src) in
    let rest = strncat_loop size m' (dst + 1) (src + 1) in
    if m src == 0 then poke m' dst 0 else rest

-- `while (*dst) dst++` goes to the end of the string at `dst`
unfoldable pub strncat : ℕ → Mem → ℕ → ℕ → ℕ → Option (Mem × ℕ)
unfolding strncat_loop
strncat fuel m dst src size = do
  n ← strlen fuel m dst
  some (strncat_loop size m (dst + n) src, dst)

-- `src` stays where it is once it points to a zero
strncpy_loop : ℕ → Mem → ℕ → ℕ → ℕ → Mem
strncpy_loop zero m dst src len = m
strncpy_loop (suc n) m dst src len =
    strncpy_loop n (poke m (dst + len) (m src)) dst (if m src == 0 then src else src + 1) (len + 1)

unfoldable pub strncpy : Mem → ℕ → ℕ → ℕ → Mem × ℕ
unfolding strncpy_loop
strncpy m dst src size = (strncpy_loop size m dst src 0, dst)
