-- ===== src/Stdlib/Duplicate.antt =====
-- `strdup` and `strndup` of string.h, which take their memory from `malloc`. `none` means that the
-- fuel of `strlen` ran out.
use nolibc.Prelude.{ℕ, ◌+◌, ◌%◌, ◌^◌, Option, some, ◌==◌, if◌then◌else◌, ◌>>=◌}
use nolibc.Mem.{poke}
use nolibc.Str.Block.{memcpy}
use nolibc.Str.Scan.{strlen, strnlen}
use nolibc.Sys.World.{World, Kernel, Numbers, Cmd}
use nolibc.Stdlib.Heap.{malloc}

module _ {K : Type 0} (nr : Numbers) (call : Kernel K) (prot flags : ℕ) where
  unfoldable pub strdup : ℕ → ℕ → World K → Option (World K × ℕ)
  strdup fuel str w = do
    len ← strlen fuel w.mem str
    let (w', ret) = malloc nr call prot flags (len + 1) w in
        let (m, _) = memcpy w'.mem ret str (len + 1) in
        some (if ret == 0 then (w', 0) else (record w' { mem = m }, ret))

  unfoldable pub strndup : ℕ → ℕ → Cmd K
  strndup str maxlen w =
      let len = strnlen w.mem str maxlen in
      let (w', ret) = malloc nr call prot flags ((len + 1) % 2 ^ 64) w in
      let (m, _) = memcpy w'.mem ret str len in
      if ret == 0 then (w', 0) else (record w' { mem = poke m (ret + len) 0 }, ret)
