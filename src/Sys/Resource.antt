-- ===== src/Sys/Resource.antt =====
-- sys/resource.h. A `struct rlimit` and a `struct rlimit64` are two words: `rlim_cur` and `rlim_max`.
-- `rlim64` is the address of the local one.
use nolibc.Prelude.{ℕ, ◌+◌, [], ◌∷◌}
use nolibc.Mem.{Mem}
use nolibc.Mem.Words.{load64, store64}
use nolibc.Sys.World.{Kernel, Numbers, Cmd, syscall, int_result, sysret32}

-- `to->rlim_cur = from->rlim_cur; to->rlim_max = from->rlim_max`
unfoldable pub copy_rlimit : Mem → ℕ → ℕ → Mem
copy_rlimit m from to =
    let m' = store64 m to (load64 m from) in store64 m' (to + 8) (load64 m' (from + 8))

module _ {K : Type 0} (nr : Numbers) (call : Kernel K) where
  unfoldable pub sys_prlimit64 : ℕ → ℕ → ℕ → ℕ → Cmd K
  sys_prlimit64 pid resource new_limit old_limit =
      int_result (syscall call nr.prlimit64 (pid ∷ resource ∷ new_limit ∷ old_limit ∷ []))

  -- the copy is made after an error too
  unfoldable pub getrlimit : ℕ → ℕ → ℕ → Cmd K
  getrlimit rlim64 resource rlim w =
      let (w', ret) = sysret32 (sys_prlimit64 0 resource 0 rlim64) w in
      (record w' { mem = copy_rlimit w'.mem rlim64 rlim }, ret)

  unfoldable pub setrlimit : ℕ → ℕ → ℕ → Cmd K
  setrlimit rlim64 resource rlim w =
      sysret32 (sys_prlimit64 0 resource rlim64 0)
        (record w { mem = copy_rlimit w.mem rlim rlim64 })
