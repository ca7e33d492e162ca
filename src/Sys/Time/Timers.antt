-- ===== src/Sys/Time/Timers.antt =====
-- The timers of time.h and sys/timerfd.h. Both take and give a `struct itimerspec`; on a system that
-- has only the calls with 64-bit times it is copied from or to a local one, at `knew` and `kold`.
use nolibc.Prelude.{ℕ, ◌+◌, [], ◌∷◌, ◌==◌, if◌then◌else◌}
use nolibc.Mem.{Mem}
use nolibc.Sys.World.{Kernel, Numbers, Cmd, syscall, attempt, enosys_result, int_result, sysret32}
use nolibc.Sys.Time.{timespec_user_to_kernel, timespec_kernel_to_user}

-- `it_interval`, then `it_value`
unfoldable pub itimerspec_kernel_to_user : Mem → ℕ → ℕ → Mem
itimerspec_kernel_to_user m k u =
    timespec_kernel_to_user (timespec_kernel_to_user m k u) (k + 16) (u + 16)

-- `it_value`, then `it_interval`
unfoldable pub itimerspec_user_to_kernel : Mem → ℕ → ℕ → Mem
itimerspec_user_to_kernel m u k =
    timespec_user_to_kernel (timespec_user_to_kernel m (u + 16) (k + 16)) u k

module _ {K : Type 0} (nr : Numbers) (call : Kernel K) where
  unfoldable pub get_timer : ℕ → ℕ → ℕ → ℕ → Cmd K
  get_timer kold n id curr_value w =
      let (w', ret) = syscall call n (id ∷ kold ∷ []) w in
      (record w' { mem = itimerspec_kernel_to_user w'.mem kold curr_value }, ret)

  unfoldable pub set_timer : ℕ → ℕ → ℕ → ℕ → ℕ → ℕ → ℕ → Cmd K
  set_timer knew kold n id flags new_value old_value w =
      let start = record w { mem = itimerspec_user_to_kernel w.mem new_value knew } in
      let (w', ret) = syscall call n (id ∷ flags ∷ knew ∷ kold ∷ []) start in
      let copied = record w' { mem = itimerspec_kernel_to_user w'.mem kold old_value } in
      (if old_value == 0 then w' else copied, ret)

  unfoldable pub sys_timer_create : ℕ → ℕ → ℕ → Cmd K
  sys_timer_create clockid evp timerid =
      int_result (syscall call nr.timer_create (clockid ∷ evp ∷ timerid ∷ []))

  unfoldable pub timer_create : ℕ → ℕ → ℕ → Cmd K
  timer_create clockid evp timerid = sysret32 (sys_timer_create clockid evp timerid)

  unfoldable pub sys_timer_delete : ℕ → Cmd K
  sys_timer_delete timerid = int_result (syscall call nr.timer_delete (timerid ∷ []))

  unfoldable pub timer_delete : ℕ → Cmd K
  timer_delete timerid = sysret32 (sys_timer_delete timerid)

  unfoldable pub sys_timer_gettime : ℕ → ℕ → ℕ → Cmd K
  sys_timer_gettime kold timerid curr_value = int_result (
      attempt nr.timer_gettime (λ n. syscall call n (timerid ∷ curr_value ∷ []))
        (attempt nr.timer_gettime64 (λ n. get_timer kold n timerid curr_value) enosys_result))

  unfoldable pub timer_gettime : ℕ → ℕ → ℕ → Cmd K
  timer_gettime kold timerid curr_value = sysret32 (sys_timer_gettime kold timerid curr_value)

  unfoldable pub sys_timer_settime : ℕ → ℕ → ℕ → ℕ → ℕ → ℕ → Cmd K
  sys_timer_settime knew kold timerid flags new_value old_value = int_result (
      attempt nr.timer_settime (λ n. syscall call n (timerid ∷ flags ∷ new_value ∷ old_value ∷ []))
        (attempt nr.timer_settime64 (λ n. set_timer knew kold n timerid flags new_value old_value)
          enosys_result))

  unfoldable pub timer_settime : ℕ → ℕ → ℕ → ℕ → ℕ → ℕ → Cmd K
  timer_settime knew kold timerid flags new_value old_value =
      sysret32 (sys_timer_settime knew kold timerid flags new_value old_value)

  unfoldable pub sys_timerfd_create : ℕ → ℕ → Cmd K
  sys_timerfd_create clockid flags =
      int_result (syscall call nr.timerfd_create (clockid ∷ flags ∷ []))

  unfoldable pub timerfd_create : ℕ → ℕ → Cmd K
  timerfd_create clockid flags = sysret32 (sys_timerfd_create clockid flags)

  unfoldable pub sys_timerfd_gettime : ℕ → ℕ → ℕ → Cmd K
  sys_timerfd_gettime kold fd curr_value = int_result (
      attempt nr.timerfd_gettime (λ n. syscall call n (fd ∷ curr_value ∷ []))
        (attempt nr.timerfd_gettime64 (λ n. get_timer kold n fd curr_value) enosys_result))

  unfoldable pub timerfd_gettime : ℕ → ℕ → ℕ → Cmd K
  timerfd_gettime kold fd curr_value = sysret32 (sys_timerfd_gettime kold fd curr_value)

  unfoldable pub sys_timerfd_settime : ℕ → ℕ → ℕ → ℕ → ℕ → ℕ → Cmd K
  sys_timerfd_settime knew kold fd flags new_value old_value = int_result (
      attempt nr.timerfd_settime (λ n. syscall call n (fd ∷ flags ∷ new_value ∷ old_value ∷ []))
        (attempt nr.timerfd_settime64 (λ n. set_timer knew kold n fd flags new_value old_value)
          enosys_result))

  unfoldable pub timerfd_settime : ℕ → ℕ → ℕ → ℕ → ℕ → ℕ → Cmd K
  timerfd_settime knew kold fd flags new_value old_value =
      sysret32 (sys_timerfd_settime knew kold fd flags new_value old_value)
