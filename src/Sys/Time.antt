-- ===== src/Sys/Time.antt =====
-- time.h and sys/time.h: clocks. A `struct timespec` and a `struct __kernel_timespec` are two 64-bit
-- words, a `struct itimerspec` two of them: `it_interval`, then `it_value`. The addresses of local
-- objects (`kts`, `tp`, `tv`) are arguments.
pub mod Timers
use nolibc.Prelude.{ℕ, ◌+◌, ◌/◌, not, ◌&&◌, Option, none, some, [], ◌∷◌, ◌==◌, if◌then◌else◌}
use nolibc.Mem.{Mem}
use nolibc.Mem.Words.{load64, store64}
use nolibc.Sys.World.{
  World, Kernel, Numbers, Cmd, syscall, attempt, enosys_result, int_result, sysret32,
}

unfoldable pub timespec_user_to_kernel : Mem → ℕ → ℕ → Mem
timespec_user_to_kernel m ts kts =
    let m' = store64 m kts (load64 m ts) in store64 m' (kts + 8) (load64 m' (ts + 8))

unfoldable pub timespec_kernel_to_user : Mem → ℕ → ℕ → Mem
timespec_kernel_to_user m kts ts =
    let m' = store64 m ts (load64 m kts) in store64 m' (ts + 8) (load64 m' (kts + 8))

module _ {K : Type 0} (nr : Numbers) (call : Kernel K) where
  -- a call that fills a `struct __kernel_timespec`, which is copied to the caller's, if there is one
  unfoldable pub get_timespec : ℕ → ℕ → ℕ → ℕ → Cmd K
  get_timespec kts n clockid res w =
      let (w', ret) = syscall call n (clockid ∷ kts ∷ []) w in
      let copied = record w' { mem = timespec_kernel_to_user w'.mem kts res } in
      (if res == 0 then w' else copied, ret)

  unfoldable pub sys_clock_getres : ℕ → ℕ → ℕ → Cmd K
  sys_clock_getres kts clockid res = int_result (
      attempt nr.clock_getres (λ n. syscall call n (clockid ∷ res ∷ []))
        (attempt nr.clock_getres_time64 (λ n. get_timespec kts n clockid res) enosys_result))

  unfoldable pub clock_getres : ℕ → ℕ → ℕ → Cmd K
  clock_getres kts clockid res = sysret32 (sys_clock_getres kts clockid res)

  unfoldable pub sys_clock_gettime : ℕ → ℕ → ℕ → Cmd K
  sys_clock_gettime kts clockid tp = int_result (
      attempt nr.clock_gettime (λ n. syscall call n (clockid ∷ tp ∷ []))
        (attempt nr.clock_gettime64 (λ n. get_timespec kts n clockid tp) enosys_result))

  unfoldable pub clock_gettime : ℕ → ℕ → ℕ → Cmd K
  clock_gettime kts clockid tp = sysret32 (sys_clock_gettime kts clockid tp)

  unfoldable pub set_timespec : ℕ → ℕ → ℕ → ℕ → Cmd K
  set_timespec kts n clockid tp w =
      syscall call n (clockid ∷ kts ∷ []) (record w { mem = timespec_user_to_kernel w.mem tp kts })

  unfoldable pub sys_clock_settime : ℕ → ℕ → ℕ → Cmd K
  sys_clock_settime kts clockid tp = int_result (
      attempt nr.clock_settime (λ n. syscall call n (clockid ∷ tp ∷ []))
        (attempt nr.clock_settime64 (λ n. set_timespec kts n clockid tp) enosys_result))

  unfoldable pub clock_settime : ℕ → ℕ → ℕ → Cmd K
  clock_settime kts clockid tp = sysret32 (sys_clock_settime kts clockid tp)

  -- without `gettimeofday`: the clock's timespec, with the nanoseconds divided by 1000; they are taken
  -- not to be negative. `realtime` is CLOCK_REALTIME.
  unfoldable pub timeval_of_clock : ℕ → ℕ → ℕ → ℕ → Cmd K
  timeval_of_clock realtime kts tp tv w =
      let (w', ret) = sys_clock_gettime kts realtime tp w in
      let m = store64 w'.mem tv (load64 w'.mem tp) in
      let m' = store64 m (tv + 8) (load64 m (tp + 8) / 1000) in
      (if ret == 0 && not (tv == 0) then record w' { mem = m' } else w', ret)

  unfoldable pub sys_gettimeofday : ℕ → ℕ → ℕ → ℕ → ℕ → Cmd K
  sys_gettimeofday realtime kts tp tv tz = elim nr.gettimeofday [
    | none ↦ timeval_of_clock realtime kts tp tv
    | some n ↦ int_result (syscall call n (tv ∷ tz ∷ []))
  ]

  unfoldable pub gettimeofday : ℕ → ℕ → ℕ → ℕ → ℕ → Cmd K
  gettimeofday realtime kts tp tv tz = sysret32 (sys_gettimeofday realtime kts tp tv tz)

  -- `tv` is the address of its local `struct timeval`
  unfoldable pub time : ℕ → ℕ → ℕ → ℕ → ℕ → Cmd K
  time realtime kts tp tv tptr w =
      let (w', _) = sys_gettimeofday realtime kts tp tv 0 w in
      let m = if tptr == 0 then w'.mem else store64 w'.mem tptr (load64 w'.mem tv) in
      (record w' { mem = m }, load64 m tv)
