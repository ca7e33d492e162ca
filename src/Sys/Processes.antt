-- ===== src/Sys/Processes.antt =====
-- System calls of sys.h on processes, those that cannot fail among them.
use nolibc.Prelude.{ℕ, [], ◌∷◌}
use nolibc.Sys.World.{Kernel, Numbers, Cmd, syscall, attempt, enosys_result, int_result, sysret32}

module _ {K : Type 0} (nr : Numbers) (call : Kernel K) where
  unfoldable pub sys_execve : ℕ → ℕ → ℕ → Cmd K
  sys_execve filename argv envp = int_result (syscall call nr.execve (filename ∷ argv ∷ envp ∷ []))

  unfoldable pub execve : ℕ → ℕ → ℕ → Cmd K
  execve filename argv envp = sysret32 (sys_execve filename argv envp)

  unfoldable pub sys_fork : Cmd K
  sys_fork = int_result (
      attempt nr.clone (λ n. syscall call n (nr.sigchld ∷ 0 ∷ 0 ∷ 0 ∷ 0 ∷ []))
        (attempt nr.fork (λ n. syscall call n ([])) enosys_result))

  unfoldable pub fork : Cmd K
  fork = sysret32 sys_fork

  unfoldable pub sys_getpgid : ℕ → Cmd K
  sys_getpgid pid = int_result (syscall call nr.getpgid (pid ∷ []))

  unfoldable pub getpgid : ℕ → Cmd K
  getpgid pid = sysret32 (sys_getpgid pid)

  unfoldable pub sys_kill : ℕ → ℕ → Cmd K
  sys_kill pid signal = int_result (syscall call nr.kill (pid ∷ signal ∷ []))

  unfoldable pub kill : ℕ → ℕ → Cmd K
  kill pid signal = sysret32 (sys_kill pid signal)

  unfoldable pub sys_sched_yield : Cmd K
  sys_sched_yield = int_result (syscall call nr.sched_yield ([]))

  unfoldable pub sched_yield : Cmd K
  sched_yield = sysret32 sys_sched_yield

  unfoldable pub sys_setpgid : ℕ → ℕ → Cmd K
  sys_setpgid pid pgid = int_result (syscall call nr.setpgid (pid ∷ pgid ∷ []))

  unfoldable pub setpgid : ℕ → ℕ → Cmd K
  setpgid pid pgid = sysret32 (sys_setpgid pid pgid)

  unfoldable pub sys_setsid : Cmd K
  sys_setsid = int_result (syscall call nr.setsid ([]))

  unfoldable pub setsid : Cmd K
  setsid = sysret32 sys_setsid

  unfoldable pub sys_geteuid : Cmd K
  sys_geteuid =
      int_result (attempt nr.geteuid32 (λ n. syscall call n ([])) (syscall call nr.geteuid ([])))

  unfoldable pub geteuid : Cmd K
  geteuid = sys_geteuid

  unfoldable pub sys_getpid : Cmd K
  sys_getpid = int_result (syscall call nr.getpid ([]))

  unfoldable pub getpid : Cmd K
  getpid = sys_getpid

  unfoldable pub sys_getppid : Cmd K
  sys_getppid = int_result (syscall call nr.getppid ([]))

  unfoldable pub getppid : Cmd K
  getppid = sys_getppid

  unfoldable pub sys_gettid : Cmd K
  sys_gettid = int_result (syscall call nr.gettid ([]))

  unfoldable pub gettid : Cmd K
  gettid = sys_gettid

  unfoldable pub sys_getuid : Cmd K
  sys_getuid =
      int_result (attempt nr.getuid32 (λ n. syscall call n ([])) (syscall call nr.getuid ([])))

  unfoldable pub getuid : Cmd K
  getuid = sys_getuid

  unfoldable pub sys_umask : ℕ → Cmd K
  sys_umask mode = int_result (syscall call nr.umask (mode ∷ []))

  unfoldable pub umask : ℕ → Cmd K
  umask mode = sys_umask mode

  unfoldable pub sys_getpgrp : Cmd K
  sys_getpgrp = sys_getpgid 0

  unfoldable pub getpgrp : Cmd K
  getpgrp = sys_getpgrp

  unfoldable pub setpgrp : Cmd K
  setpgrp = setpgid 0 0
