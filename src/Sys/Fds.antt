-- ===== src/Sys/Fds.antt =====
-- System calls of sys.h on file descriptors.
use nolibc.Prelude.{ℕ, [], ◌∷◌}
use nolibc.Sys.World.{
  Kernel, Numbers, Cmd, syscall, attempt, enosys_result, int_result, sysret32, sysret64,
}

module _ {K : Type 0} (nr : Numbers) (call : Kernel K) where
  unfoldable pub sys_close : ℕ → Cmd K
  sys_close fd = int_result (syscall call nr.close (fd ∷ []))

  unfoldable pub close : ℕ → Cmd K
  close fd = sysret32 (sys_close fd)

  unfoldable pub sys_dup : ℕ → Cmd K
  sys_dup fd = int_result (syscall call nr.dup (fd ∷ []))

  unfoldable pub dup : ℕ → Cmd K
  dup fd = sysret32 (sys_dup fd)

  unfoldable pub sys_dup2 : ℕ → ℕ → Cmd K
  sys_dup2 old new = int_result (
      attempt nr.dup3 (λ n. syscall call n (old ∷ new ∷ 0 ∷ []))
        (attempt nr.dup2 (λ n. syscall call n (old ∷ new ∷ [])) enosys_result))

  unfoldable pub dup2 : ℕ → ℕ → Cmd K
  dup2 old new = sysret32 (sys_dup2 old new)

  unfoldable pub sys_dup3 : ℕ → ℕ → ℕ → Cmd K
  sys_dup3 old new flags =
      int_result (attempt nr.dup3 (λ n. syscall call n (old ∷ new ∷ flags ∷ [])) enosys_result)

  unfoldable pub dup3 : ℕ → ℕ → ℕ → Cmd K
  dup3 old new flags = sysret32 (sys_dup3 old new flags)

  unfoldable pub sys_fsync : ℕ → Cmd K
  sys_fsync fd = int_result (syscall call nr.fsync (fd ∷ []))

  unfoldable pub fsync : ℕ → Cmd K
  fsync fd = sysret32 (sys_fsync fd)

  unfoldable pub sys_getdents64 : ℕ → ℕ → ℕ → Cmd K
  sys_getdents64 fd dirp count = int_result (syscall call nr.getdents64 (fd ∷ dirp ∷ count ∷ []))

  unfoldable pub getdents64 : ℕ → ℕ → ℕ → Cmd K
  getdents64 fd dirp count = sysret32 (sys_getdents64 fd dirp count)

  unfoldable pub sys_pipe2 : ℕ → ℕ → Cmd K
  sys_pipe2 pipefd flags = int_result (syscall call nr.pipe2 (pipefd ∷ flags ∷ []))

  unfoldable pub pipe2 : ℕ → ℕ → Cmd K
  pipe2 pipefd flags = sysret32 (sys_pipe2 pipefd flags)

  unfoldable pub sys_read : ℕ → ℕ → ℕ → Cmd K
  sys_read fd buf count = syscall call nr.read (fd ∷ buf ∷ count ∷ [])

  unfoldable pub read : ℕ → ℕ → ℕ → Cmd K
  read fd buf count = sysret64 (sys_read fd buf count)

  unfoldable pub sys_write : ℕ → ℕ → ℕ → Cmd K
  sys_write fd buf count = syscall call nr.write (fd ∷ buf ∷ count ∷ [])

  unfoldable pub write : ℕ → ℕ → ℕ → Cmd K
  write fd buf count = sysret64 (sys_write fd buf count)

  unfoldable pub sys_memfd_create : ℕ → ℕ → Cmd K
  sys_memfd_create name flags = int_result (syscall call nr.memfd_create (name ∷ flags ∷ []))

  unfoldable pub memfd_create : ℕ → ℕ → Cmd K
  memfd_create name flags = sysret32 (sys_memfd_create name flags)

  -- `pipe(fds)` is `pipe2(fds, 0)`
  unfoldable pub pipe : ℕ → Cmd K
  pipe pipefd = pipe2 pipefd 0
