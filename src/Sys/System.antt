-- ===== src/Sys/System.antt =====
-- Calls that go to the kernel as they are: sched.h, sys/mount.h, sys/prctl.h, sys/reboot.h,
-- sys/utsname.h, sys/random.h, sys/ioctl.h, signal.h, `wait4` of sys/wait.h, `tcsetpgrp` of
-- unistd.h, and `abort` of stdlib.h. Constants of the kernel's headers are arguments.
use nolibc.Prelude.{ℕ, [], ◌∷◌}
use nolibc.Mem.Words.{store32}
use nolibc.Sys.World.{
  World, Kernel, Numbers, Cmd, syscall, attempt, enosys_result, int_result, sysret32, sysret64,
}
use nolibc.Sys.Processes.{sys_kill, sys_getpid}

module _ {K : Type 0} (nr : Numbers) (call : Kernel K) where
  unfoldable pub sys_setns : ℕ → ℕ → Cmd K
  sys_setns fd nstype = int_result (syscall call nr.setns (fd ∷ nstype ∷ []))

  unfoldable pub setns : ℕ → ℕ → Cmd K
  setns fd nstype = sysret32 (sys_setns fd nstype)

  unfoldable pub sys_unshare : ℕ → Cmd K
  sys_unshare flags = int_result (syscall call nr.unshare (flags ∷ []))

  unfoldable pub unshare : ℕ → Cmd K
  unshare flags = sysret32 (sys_unshare flags)

  unfoldable pub sys_mount : ℕ → ℕ → ℕ → ℕ → ℕ → Cmd K
  sys_mount src tgt fst flags arg =
      int_result (syscall call nr.mount (src ∷ tgt ∷ fst ∷ flags ∷ arg ∷ []))

  unfoldable pub mount : ℕ → ℕ → ℕ → ℕ → ℕ → Cmd K
  mount src tgt fst flags arg = sysret32 (sys_mount src tgt fst flags arg)

  unfoldable pub sys_prctl : ℕ → ℕ → ℕ → ℕ → ℕ → Cmd K
  sys_prctl option arg2 arg3 arg4 arg5 =
      int_result (syscall call nr.prctl (option ∷ arg2 ∷ arg3 ∷ arg4 ∷ arg5 ∷ []))

  unfoldable pub prctl : ℕ → ℕ → ℕ → ℕ → ℕ → Cmd K
  prctl option arg2 arg3 arg4 arg5 = sysret32 (sys_prctl option arg2 arg3 arg4 arg5)

  -- it returns a `ssize_t`
  unfoldable pub sys_reboot : ℕ → ℕ → ℕ → ℕ → Cmd K
  sys_reboot magic1 magic2 cmd arg = syscall call nr.reboot (magic1 ∷ magic2 ∷ cmd ∷ arg ∷ [])

  unfoldable pub reboot : ℕ → ℕ → ℕ → Cmd K
  reboot magic1 magic2 cmd = int_result (sysret64 (sys_reboot magic1 magic2 cmd 0))

  unfoldable pub sys_uname : ℕ → Cmd K
  sys_uname buf = int_result (syscall call nr.uname (buf ∷ []))

  unfoldable pub uname : ℕ → Cmd K
  uname buf = sysret32 (sys_uname buf)

  unfoldable pub sys_getrandom : ℕ → ℕ → ℕ → Cmd K
  sys_getrandom buf buflen flags = syscall call nr.getrandom (buf ∷ buflen ∷ flags ∷ [])

  unfoldable pub getrandom : ℕ → ℕ → ℕ → Cmd K
  getrandom buf buflen flags = sysret64 (sys_getrandom buf buflen flags)

  unfoldable pub sys_ioctl : ℕ → ℕ → ℕ → Cmd K
  sys_ioctl fd cmd arg = syscall call nr.ioctl (fd ∷ cmd ∷ arg ∷ [])

  unfoldable pub ioctl : ℕ → ℕ → ℕ → Cmd K
  ioctl fd cmd arg = sysret64 (sys_ioctl fd cmd arg)

  -- `cell` is the address of the parameter `pid`, `request` is TIOCSPGRP
  unfoldable pub tcsetpgrp : ℕ → ℕ → ℕ → ℕ → Cmd K
  tcsetpgrp request cell fd pid w =
      int_result (ioctl fd request cell) (record w { mem = store32 w.mem cell pid })

  unfoldable pub sys_wait4 : ℕ → ℕ → ℕ → ℕ → Cmd K
  sys_wait4 pid status options rusage =
      int_result (
        attempt nr.wait4 (λ n. syscall call n (pid ∷ status ∷ options ∷ rusage ∷ [])) enosys_result)

  unfoldable pub wait4 : ℕ → ℕ → ℕ → ℕ → Cmd K
  wait4 pid status options rusage = sysret32 (sys_wait4 pid status options rusage)

  -- the result of the kernel is returned as it is
  unfoldable pub raise : ℕ → Cmd K
  raise signal w = let (w', pid) = sys_getpid nr call w in sys_kill nr call pid signal w'

  -- what is done before the endless loop
  unfoldable pub abort : ℕ → World K → World K
  abort sigabrt w =
      let (w', pid) = sys_getpid nr call w in let (w'', _) = sys_kill nr call pid sigabrt w' in w''
