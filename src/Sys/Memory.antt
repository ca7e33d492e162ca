-- ===== src/Sys/Memory.antt =====
-- `brk` and `sbrk` of sys.h, `mmap`, `mremap` and `munmap` of sys/mman.h. A pointer is a number, and
-- MAP_FAILED the pattern of -1.
use nolibc.Prelude.{ℕ, ◌+◌, ◌%◌, ◌^◌, ◌-◌, ◌/◌, none, some, [], ◌∷◌, ◌==◌, leb, if◌then◌else◌}
use nolibc.Prelude.Words.{neg64}
use nolibc.Errno.{enomem}
use nolibc.Sys.World.{World, Kernel, Numbers, Cmd, syscall, int_result, sysret32}

abbrev pub map_failed : ℕ
map_failed = 2 ^ 64 - 1

module _ {K : Type 0} (nr : Numbers) (call : Kernel K) where
  unfoldable pub sys_brk : ℕ → Cmd K
  sys_brk addr = syscall call nr.brk (addr ∷ [])

  unfoldable pub brk : ℕ → Cmd K
  brk addr w =
      let (w', ret) = sys_brk addr w in
      if ret == 0 then (record w' { errno = enomem }, 2 ^ 32 - 1) else (w', 0)

  -- the second call is made only if the first returned a pointer
  unfoldable pub sbrk : ℕ → Cmd K
  sbrk inc w =
      let (w', ret) = sys_brk 0 w in
      let target = (ret + inc) % 2 ^ 64 in
      let (w'', new) = sys_brk target w' in
      if ret == 0
      then (record w' { errno = enomem }, 2 ^ 64 - 1)
      else if new == target
      then (w'', target)
      else (record w'' { errno = enomem }, 2 ^ 64 - 1)

  -- where there is `mmap2`, the offset counts pages
  unfoldable pub sys_mmap : ℕ → ℕ → ℕ → ℕ → ℕ → ℕ → Cmd K
  sys_mmap addr length prot flags fd offset = elim nr.mmap2 [
    | none ↦ syscall call nr.mmap (addr ∷ length ∷ prot ∷ flags ∷ fd ∷ offset ∷ [])
    | some n ↦ syscall call n (addr ∷ length ∷ prot ∷ flags ∷ fd ∷ offset / 2 ^ 12 ∷ [])
  ]

  -- `(unsigned long)ret >= -4095UL`
  unfoldable pub map_result : World K × ℕ → World K × ℕ
  map_result (w, ret) =
      if leb (2 ^ 64 - 4095) ret
      then (record w { errno = neg64 ret % 2 ^ 32 }, map_failed)
      else (w, ret)

  unfoldable pub mmap : ℕ → ℕ → ℕ → ℕ → ℕ → ℕ → Cmd K
  unfolding map_result
  mmap addr length prot flags fd offset w = map_result (sys_mmap addr length prot flags fd offset w)

  unfoldable pub sys_mremap : ℕ → ℕ → ℕ → ℕ → ℕ → Cmd K
  sys_mremap old_address old_size new_size flags new_address =
      syscall call nr.mremap (old_address ∷ old_size ∷ new_size ∷ flags ∷ new_address ∷ [])

  unfoldable pub mremap : ℕ → ℕ → ℕ → ℕ → ℕ → Cmd K
  unfolding map_result
  mremap old_address old_size new_size flags new_address w =
      map_result (sys_mremap old_address old_size new_size flags new_address w)

  unfoldable pub sys_munmap : ℕ → ℕ → Cmd K
  sys_munmap addr length = int_result (syscall call nr.munmap (addr ∷ length ∷ []))

  unfoldable pub munmap : ℕ → ℕ → Cmd K
  munmap addr length = sysret32 (sys_munmap addr length)
