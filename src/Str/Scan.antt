-- ===== src/Str/Scan.antt =====
-- `strlen`, `strnlen`, `strchr` and `strrchr` of string.h. A scan for a terminator takes fuel: one
-- unit for each byte that it looks at. `none` means that the fuel ran out.
pub mod Laws
use nolibc.Prelude.{ℕ, zero, suc, ◌+◌, ◌%◌, Option, none, some, ◌==◌, if◌then◌else◌, ◌>>=◌}
use nolibc.Mem.{Mem}

abbrev pub null : ℕ
null = 0

strlen_loop : ℕ → Mem → ℕ → ℕ → Option ℕ
strlen_loop zero m str len = none
strlen_loop (suc fuel) m str len =
    let rest = strlen_loop fuel m str (len + 1) in if m (str + len) == 0 then some len else rest

unfoldable pub strlen : ℕ → Mem → ℕ → Option ℕ
unfolding strlen_loop
strlen fuel m str = strlen_loop fuel m str 0

-- the argument that falls is `maxlen - len`
strnlen_loop : ℕ → Mem → ℕ → ℕ → ℕ
strnlen_loop zero m str len = len
strnlen_loop (suc n) m str len =
    let rest = strnlen_loop n m str (len + 1) in if m (str + len) == 0 then len else rest

unfoldable pub strnlen : Mem → ℕ → ℕ → ℕ
unfolding strnlen_loop
strnlen m str maxlen = strnlen_loop maxlen m str 0

-- `c` is an `int`; the comparison is with `(char)c`
unfoldable pub strchr : ℕ → Mem → ℕ → ℕ → Option ℕ
strchr zero m s c = none
strchr (suc fuel) m s c =
    let rest = strchr fuel m (s + 1) c in
    if m s == 0 then some null else if m s == c % 256 then some s else rest

strrchr_loop : ℕ → Mem → ℕ → ℕ → ℕ → Option ℕ
strrchr_loop zero m s c ret = none
strrchr_loop (suc fuel) m s c ret =
    let rest = strrchr_loop fuel m (s + 1) c (if m s == c % 256 then s else ret) in
    if m s == 0 then some ret else rest

unfoldable pub strrchr : ℕ → Mem → ℕ → ℕ → Option ℕ
unfolding strrchr_loop
strrchr fuel m s c = strrchr_loop fuel m s c null
