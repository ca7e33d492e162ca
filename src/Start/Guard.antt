-- ===== src/Start/Guard.antt =====
-- stackprotector.h. `guard` is the address of `__stack_chk_guard`. The calls go to the kernel without
-- the wrappers of sys.h, so that `errno` stays as it is.
pub mod Nonzero
use Prim.Native.Nat.{bit_xor}
use nolibc.Prelude.{ℕ, [], ◌∷◌, ◌==◌, if◌then◌else◌}
use nolibc.Mem.Words.{load64, store64}
use nolibc.Sys.World.{World, Kernel, Numbers, syscall}

module _ {K : Type 0} (nr : Numbers) (call : Kernel K) where
  unfoldable pub stack_chk_init : ℕ → World K → World K
  stack_chk_init guard w =
      let (w', _) = syscall call nr.getrandom (guard ∷ 8 ∷ 0 ∷ []) w in
      let value = load64 w'.mem guard in
      if value == guard then w' else record w' { mem = store64 w'.mem guard (bit_xor value guard) }

  -- what is done before the endless loop: `text` is the address of the message of 28 bytes, `sigabrt`
  -- the number of the signal
  unfoldable pub stack_chk_fail : ℕ → ℕ → World K → World K
  stack_chk_fail text sigabrt w =
      let (w', _) = syscall call nr.write (2 ∷ text ∷ 28 ∷ []) w in
      let (w'', pid) = syscall call nr.getpid [] w' in
      let (w''', _) = syscall call nr.kill (pid ∷ sigabrt ∷ []) w'' in w'''
