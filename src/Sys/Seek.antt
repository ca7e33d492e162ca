-- ===== src/Sys/Seek.antt =====
-- `lseek` of sys.h. `loff` is the address of its local `__kernel_loff_t`, which holds 0 at first.
use nolibc.Prelude.{ℕ, ◌%◌, ◌^◌, [], ◌∷◌, ◌==◌, if◌then◌else◌}
use nolibc.Prelude.Words.{neg64, is_neg32, extend}
use nolibc.Errno.{enosys, eoverflow}
use nolibc.Mem.Words.{load64, store64}
use nolibc.Sys.World.{
  World, Kernel, Numbers, Cmd, syscall, attempt, enosys_result, int_result, sysret64,
}

module _ {K : Type 0} (nr : Numbers) (call : Kernel K) where
  unfoldable pub sys_lseek : ℕ → ℕ → ℕ → Cmd K
  sys_lseek fd offset whence =
      attempt nr.lseek (λ n. syscall call n (fd ∷ offset ∷ whence ∷ [])) enosys_result

  unfoldable pub sys_llseek : ℕ → ℕ → ℕ → ℕ → ℕ → Cmd K
  sys_llseek fd offset_high offset_low result whence = int_result (
      attempt nr.llseek (λ n. syscall call n (fd ∷ offset_high ∷ offset_low ∷ result ∷ whence ∷ []))
        enosys_result)

  -- what is made of the answer of `sys_llseek`; an `off_t` has 64 bits, so that `loff` fits
  unfoldable pub seek_result : ℕ → World K × ℕ → World K × ℕ
  seek_result loff (w, ret) =
      let at = load64 w.mem loff in
      (w, if is_neg32 ret then extend ret else if at == at % 2 ^ 64 then at else neg64 eoverflow)

  -- the value handed to `__sysret`
  unfoldable pub seek : ℕ → ℕ → ℕ → ℕ → Cmd K
  seek loff fd offset whence w =
      let start = record w { mem = store64 w.mem loff 0 } in
      let (w', result) = sys_lseek fd offset whence start in
      let far = seek_result loff (sys_llseek fd 0 offset loff whence w') in
      if result == neg64 enosys then far else (w', result)

  unfoldable pub lseek : ℕ → ℕ → ℕ → ℕ → Cmd K
  lseek loff fd offset whence = sysret64 (seek loff fd offset whence)
