-- ===== src/Sys/Numbers.antt =====
-- The numbers of the system calls, and the constants of the kernel's headers that sys.h passes on. A
-- call that an architecture may lack, so that the source tests for its number, is `none` there.
-- `old_select` is `__NR_select` where __ARCH_WANT_SYS_OLD_SELECT is defined, and `select` where not.
use nolibc.Prelude.{ℕ, Option}

pub record Numbers : Type 0 where
  pub chdir : ℕ
  pub fchmodat : Option ℕ
  pub chmod : Option ℕ
  pub fchownat : Option ℕ
  pub chown : Option ℕ
  pub chroot : ℕ
  pub close : ℕ
  pub dup : ℕ
  pub dup3 : Option ℕ
  pub dup2 : Option ℕ
  pub execve : ℕ
  pub clone : Option ℕ
  pub fork : Option ℕ
  pub fsync : ℕ
  pub getdents64 : ℕ
  pub getpgid : ℕ
  pub kill : ℕ
  pub linkat : Option ℕ
  pub link : Option ℕ
  pub mkdirat : Option ℕ
  pub mkdir : Option ℕ
  pub rmdir : Option ℕ
  pub unlinkat : Option ℕ
  pub mknodat : Option ℕ
  pub mknod : Option ℕ
  pub pipe2 : ℕ
  pub pivot_root : ℕ
  pub read : ℕ
  pub sched_yield : ℕ
  pub setpgid : ℕ
  pub setsid : ℕ
  pub symlinkat : Option ℕ
  pub symlink : Option ℕ
  pub umount2 : ℕ
  pub unlink : Option ℕ
  pub write : ℕ
  pub memfd_create : ℕ
  pub geteuid32 : Option ℕ
  pub geteuid : ℕ
  pub getpid : ℕ
  pub getppid : ℕ
  pub gettid : ℕ
  pub getuid32 : Option ℕ
  pub getuid : ℕ
  pub umask : ℕ
  pub mmap2 : Option ℕ
  pub brk : ℕ
  pub exit : ℕ
  pub lseek : Option ℕ
  pub llseek : Option ℕ
  pub openat : ℕ
  pub faccessat : ℕ
  pub mmap : ℕ
  pub munmap : ℕ
  pub mremap : ℕ
  pub waitid : ℕ
  pub wait4 : Option ℕ
  pub setns : ℕ
  pub unshare : ℕ
  pub mount : ℕ
  pub prctl : ℕ
  pub reboot : ℕ
  pub uname : ℕ
  pub getrandom : ℕ
  pub ioctl : ℕ
  pub prlimit64 : ℕ
  pub timerfd_create : ℕ
  pub timer_create : ℕ
  pub timer_delete : ℕ
  pub statx : Option ℕ
  pub clock_getres : Option ℕ
  pub clock_getres_time64 : Option ℕ
  pub clock_gettime : Option ℕ
  pub clock_gettime64 : Option ℕ
  pub clock_settime : Option ℕ
  pub clock_settime64 : Option ℕ
  pub timer_gettime : Option ℕ
  pub timer_gettime64 : Option ℕ
  pub timer_settime : Option ℕ
  pub timer_settime64 : Option ℕ
  pub timerfd_gettime : Option ℕ
  pub timerfd_gettime64 : Option ℕ
  pub timerfd_settime : Option ℕ
  pub timerfd_settime64 : Option ℕ
  pub gettimeofday : Option ℕ
  pub old_select : Option ℕ
  pub newselect : Option ℕ
  pub select : Option ℕ
  pub pselect6 : Option ℕ
  pub pselect6_time64 : Option ℕ
  pub ppoll : Option ℕ
  pub ppoll_time64 : Option ℕ
  pub poll : Option ℕ
  pub at_fdcwd : ℕ
  pub at_removedir : ℕ
  pub sigchld : ℕ
