-- ===== src/Sys/Wait.antt =====
-- `waitid`, `waitpid` and `wait` of sys/wait.h, and the macros of types.h on the status. An `int` is its
-- 32-bit pattern. What the kernel stores in the `siginfo_t` is read from its memory at `info`.
pub mod Status
use Prim.Native.Nat.{bit_and, bit_or}
use nolibc.Prelude.{
  ℕ, ◌+◌, ◌*◌, ◌%◌, ◌^◌, ◌-◌, ◌/◌, Bool, Option, none, some, [], ◌∷◌, ◌==◌, not, ◌&&◌,
  if◌then◌else◌,
}
use nolibc.Prelude.Words.{neg32, is_neg32, sub32, signed32}
use nolibc.Prelude.Int.{pos, ltb_ℤ}
use nolibc.Errno.{esrch}
use nolibc.Sys.World.{World, Kernel, Numbers, Cmd, syscall, int_result, sysret32}

-- constants of the kernel's headers, and the fields of a `siginfo_t` as its memory holds them
pub record WaitAbi : Type 0 where
  pub p_all : ℕ
  pub p_pid : ℕ
  pub p_pgid : ℕ
  pub wexited : ℕ
  pub cld_exited : ℕ
  pub cld_killed : ℕ
  pub cld_dumped : ℕ
  pub cld_trapped : ℕ
  pub cld_stopped : ℕ
  pub cld_continued : ℕ
  pub si_code : (ℕ → ℕ) → ℕ
  pub si_status : (ℕ → ℕ) → ℕ
  pub si_pid : (ℕ → ℕ) → ℕ

unfoldable pub wexitstatus : ℕ → ℕ
wexitstatus status = bit_and status 0xff00 / 2 ^ 8

unfoldable pub wifexited : ℕ → Bool
wifexited status = bit_and status 0x7f == 0

unfoldable pub wtermsig : ℕ → ℕ
wtermsig status = bit_and status 0x7f

-- `(status) - 1 < 0xff` on `int`
unfoldable pub wifsignaled : ℕ → Bool
wifsignaled status = ltb_ℤ (signed32 (sub32 status 1)) (pos 0xff)

-- which processes are waited for: `idtype` and `id`
unfoldable pub wait_target : WaitAbi → ℕ → Option (ℕ × ℕ)
wait_target abi pid =
    if pid == 2 ^ 31
    then none
    else if is_neg32 pid && not (pid == 2 ^ 32 - 1)
    then some (abi.p_pgid, neg32 pid)
    else if pid == 2 ^ 32 - 1
    then some (abi.p_all, 0)
    else if pid == 0
    then some (abi.p_pgid, 0)
    else some (abi.p_pid, pid)

-- the `switch` on `si_code`: the status, if the code is known
unfoldable pub wait_status : WaitAbi → ℕ → ℕ → Option ℕ
wait_status abi code status =
    if code == 0
    then some 0
    else if code == abi.cld_exited
    then some (bit_and status 0xff * 2 ^ 8)
    else if code == abi.cld_killed
    then some (bit_and status 0x7f)
    else if code == abi.cld_dumped
    then some (bit_or (bit_and status 0x7f) 0x80)
    else if code == abi.cld_stopped
    then some ((status * 2 ^ 8 + 0x7f) % 2 ^ 32)
    else if code == abi.cld_trapped
    then some ((status * 2 ^ 8 + 0x7f) % 2 ^ 32)
    else if code == abi.cld_continued
    then some 0xffff
    else none

module _ {K : Type 0} (nr : Numbers) (call : Kernel K) (abi : WaitAbi) where
  unfoldable pub sys_waitid : ℕ → ℕ → ℕ → ℕ → ℕ → Cmd K
  sys_waitid which pid infop options rusage =
      int_result (syscall call nr.waitid (which ∷ pid ∷ infop ∷ options ∷ rusage ∷ []))

  unfoldable pub waitid : ℕ → ℕ → ℕ → ℕ → Cmd K
  waitid which pid infop options = sysret32 (sys_waitid which pid infop options 0)

  -- what `waitpid` does with the answer of `waitid`: the result, and the status stored
  unfoldable pub wait_answer : ℕ → World K × ℕ → World K × ℕ × Option ℕ
  wait_answer info (w, ret) =
      let bytes = λ (i : ℕ). w.mem (info + i) in
      if ret == 0
      then elim (wait_status abi (abi.si_code bytes) (abi.si_status bytes)) [
        | none ↦ (w, 2 ^ 32 - 1, none)
        | some status ↦ (w, abi.si_pid bytes, some status)
      ]
      else (w, ret, none)

  -- `info` is the address of the local `siginfo_t`
  unfoldable pub waitpid : ℕ → ℕ → ℕ → World K → World K × ℕ × Option ℕ
  waitpid info pid options w = elim (wait_target abi pid) [
    | none ↦ (record w { errno = esrch }, 2 ^ 32 - 1, none)
    | some (idtype, id) ↦ wait_answer info (waitid idtype id info (bit_or options abi.wexited) w)
  ]

  unfoldable pub wait : ℕ → World K → World K × ℕ × Option ℕ
  wait info = waitpid info (2 ^ 32 - 1) 0
