-- ===== src/Tests/Calls.antt =====
-- Call numbers for the tests, all different; those of `read`, `write`, `close`, `mmap`, `munmap` and
-- `openat` are the ones of x86-64.
use nolibc.Prelude.{some}
use nolibc.Sys.World.{Numbers}

abbrev pub numbers : Numbers
numbers = record {
  chdir = 1001;
  fchmodat = some 1002;
  chmod = some 1003;
  fchownat = some 1004;
  chown = some 1005;
  chroot = 1006;
  close = 3;
  dup = 1008;
  dup3 = some 1009;
  dup2 = some 1010;
  execve = 1011;
  clone = some 1012;
  fork = some 1013;
  fsync = 1014;
  getdents64 = 1015;
  getpgid = 1016;
  kill = 1017;
  linkat = some 1018;
  link = some 1019;
  mkdirat = some 1020;
  mkdir = some 1021;
  rmdir = some 1022;
  unlinkat = some 1023;
  mknodat = some 1024;
  mknod = some 1025;
  pipe2 = 1026;
  pivot_root = 1027;
  read = 0;
  sched_yield = 1029;
  setpgid = 1030;
  setsid = 1031;
  symlinkat = some 1032;
  symlink = some 1033;
  umount2 = 1034;
  unlink = some 1035;
  write = 1;
  memfd_create = 1037;
  geteuid32 = some 1038;
  geteuid = 1039;
  getpid = 1040;
  getppid = 1041;
  gettid = 1042;
  getuid32 = some 1043;
  getuid = 1044;
  umask = 1045;
  mmap2 = some 1046;
  brk = 1047;
  exit = 1048;
  lseek = some 1049;
  llseek = some 1050;
  openat = 257;
  faccessat = 1052;
  mmap = 9;
  munmap = 11;
  mremap = 1055;
  waitid = 1056;
  wait4 = some 1057;
  setns = 1558;
  unshare = 1559;
  mount = 1560;
  prctl = 1561;
  reboot = 1562;
  uname = 1563;
  getrandom = 1564;
  ioctl = 1565;
  prlimit64 = 1566;
  timerfd_create = 1567;
  timer_create = 1568;
  timer_delete = 1569;
  statx = some 1570;
  clock_getres = some 1571;
  clock_getres_time64 = some 1572;
  clock_gettime = some 1573;
  clock_gettime64 = some 1574;
  clock_settime = some 1575;
  clock_settime64 = some 1576;
  timer_gettime = some 1577;
  timer_gettime64 = some 1578;
  timer_settime = some 1579;
  timer_settime64 = some 1580;
  timerfd_gettime = some 1581;
  timerfd_gettime64 = some 1582;
  timerfd_settime = some 1583;
  timerfd_settime64 = some 1584;
  gettimeofday = some 1585;
  old_select = some 1586;
  newselect = some 1587;
  select = some 1588;
  pselect6 = some 1589;
  pselect6_time64 = some 1590;
  ppoll = some 1591;
  ppoll_time64 = some 1592;
  poll = some 1593;
  at_fdcwd = 1058;
  at_removedir = 1059;
  sigchld = 1060;
}
