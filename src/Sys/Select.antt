-- ===== src/Sys/Select.antt =====
-- `select` of sys.h, `poll` of poll.h, and the functions of unistd.h that sleep by `select`. `arg` and
-- `t` are the addresses of local objects: a `struct sel_arg_struct` and a `struct timespec`, whose
-- words stand one after the other, as do those of a `struct timeval`.
pub mod Sleeps
use nolibc.Prelude.{ℕ, ◌+◌, ◌*◌, ◌/◌, ◌%◌, ◌^◌, [], ◌∷◌, ◌==◌, if◌then◌else◌}
use nolibc.Prelude.Words.{is_neg32, extend}
use nolibc.Mem.{Mem}
use nolibc.Mem.Words.{load64, store64}
use nolibc.Sys.World.{Kernel, Numbers, Cmd, syscall, attempt, enosys_result, int_result, sysret32}

-- two words at `p`, as `{ tv_sec, tv_nsec }` or `{ tv_sec, tv_usec }`
unfoldable pub store_pair : Mem → ℕ → ℕ → ℕ → Mem
store_pair m p a b = store64 (store64 m p a) (p + 8) b

-- `t.tv_sec = timeout->tv_sec; t.tv_nsec = timeout->tv_usec * 1000`, if there is a timeout
unfoldable pub timeval_to_timespec : Mem → ℕ → ℕ → Mem
timeval_to_timespec m timeout t =
    if timeout == 0
    then m
    else store_pair m t (load64 m timeout) (load64 m (timeout + 8) * 1000 % 2 ^ 64)

-- `t.tv_sec = timeout / 1000; t.tv_nsec = (timeout % 1000) * 1000000`, if it is not negative
unfoldable pub milliseconds_to_timespec : Mem → ℕ → ℕ → Mem
milliseconds_to_timespec m timeout t =
    if is_neg32 timeout then m else store_pair m t (timeout / 1000) (timeout % 1000 * 1000000)

module _ {K : Type 0} (nr : Numbers) (call : Kernel K) where
  -- `pselect6` and `pselect6_time64`, which differ in the number only
  unfoldable pub pselect : ℕ → ℕ → ℕ → ℕ → ℕ → ℕ → ℕ → Cmd K
  pselect t n nfds rfds wfds efds timeout w =
      syscall call n (nfds ∷ rfds ∷ wfds ∷ efds ∷ (if timeout == 0 then 0 else t) ∷ 0 ∷ [])
        (record w { mem = timeval_to_timespec w.mem timeout t })

  -- the arguments in a structure of five words
  unfoldable pub old_select : ℕ → ℕ → ℕ → ℕ → ℕ → ℕ → ℕ → Cmd K
  old_select arg n nfds rfds wfds efds timeout w =
      let m = store_pair w.mem arg (extend nfds) rfds in
      let m' = store64 (store_pair m (arg + 16) wfds efds) (arg + 32) timeout in
      syscall call n (arg ∷ []) (record w { mem = m' })

  unfoldable pub sys_select : ℕ → ℕ → ℕ → ℕ → ℕ → ℕ → ℕ → Cmd K
  sys_select arg t nfds rfds wfds efds timeout =
      let direct = λ (n : ℕ). syscall call n (nfds ∷ rfds ∷ wfds ∷ efds ∷ timeout ∷ []) in
      let timed = λ (n : ℕ). pselect t n nfds rfds wfds efds timeout in
      let modern = attempt nr.newselect direct (
        attempt nr.old_select (λ n. old_select arg n nfds rfds wfds efds timeout)
          (attempt nr.select direct
            (attempt nr.pselect6 timed (attempt nr.pselect6_time64 timed enosys_result)))) in
      int_result modern

  unfoldable pub select : ℕ → ℕ → ℕ → ℕ → ℕ → ℕ → ℕ → Cmd K
  select arg t nfds rfds wfds efds timeout = sysret32 (sys_select arg t nfds rfds wfds efds timeout)

  -- `ppoll` and `ppoll_time64`
  unfoldable pub ppoll : ℕ → ℕ → ℕ → ℕ → ℕ → Cmd K
  ppoll t n fds nfds timeout w =
      syscall call n (fds ∷ nfds ∷ (if is_neg32 timeout then 0 else t) ∷ 0 ∷ 0 ∷ [])
        (record w { mem = milliseconds_to_timespec w.mem timeout t })

  unfoldable pub sys_poll : ℕ → ℕ → ℕ → ℕ → Cmd K
  sys_poll t fds nfds timeout =
      let timed = λ (n : ℕ). ppoll t n fds nfds timeout in
      int_result (
        attempt nr.ppoll timed (
          attempt nr.ppoll_time64 timed
            (attempt nr.poll (λ n. syscall call n (fds ∷ nfds ∷ timeout ∷ [])) enosys_result)))

  unfoldable pub poll : ℕ → ℕ → ℕ → ℕ → Cmd K
  poll t fds nfds timeout = sysret32 (sys_poll t fds nfds timeout)

  -- the sleeping functions: `tv` is the address of `my_timeval`; after an error it tells what
  -- is left, which is taken not to be negative
  unfoldable pub sleep_for : ℕ → ℕ → ℕ → ℕ → ℕ → Cmd K
  sleep_for arg t tv sec usec w =
      sys_select arg t 0 0 0 0 tv (record w { mem = store_pair w.mem tv sec usec })

  unfoldable pub msleep : ℕ → ℕ → ℕ → ℕ → Cmd K
  msleep arg t tv msecs w =
      let (w', ret) = sleep_for arg t tv (msecs / 1000) (msecs % 1000 * 1000) w in
      let usec = load64 w'.mem (tv + 8) in
      let left = load64 w'.mem tv * 1000 + usec / 1000 + (if usec % 1000 == 0 then 0 else 1) in
      (w', if is_neg32 ret then left % 2 ^ 32 else 0)

  unfoldable pub sleep : ℕ → ℕ → ℕ → ℕ → Cmd K
  sleep arg t tv seconds w =
      let (w', ret) = sleep_for arg t tv seconds 0 w in
      let left = load64 w'.mem tv + (if load64 w'.mem (tv + 8) == 0 then 0 else 1) in
      (w', if is_neg32 ret then left % 2 ^ 32 else 0)

  unfoldable pub usleep : ℕ → ℕ → ℕ → ℕ → Cmd K
  usleep arg t tv usecs = sleep_for arg t tv (usecs / 1000000) (usecs % 1000000)
