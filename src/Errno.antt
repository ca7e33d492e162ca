-- ===== src/Errno.antt =====
-- errno.h: the error codes that the library sets itself. `errno` is a number that functions take and
-- return.
use nolibc.Prelude.{ℕ}

abbrev pub esrch : ℕ
esrch = 3

abbrev pub enoent : ℕ
enoent = 2

abbrev pub ebadf : ℕ
ebadf = 9

abbrev pub enomem : ℕ
enomem = 12

abbrev pub einval : ℕ
einval = 22

abbrev pub erange : ℕ
erange = 34

abbrev pub enosys : ℕ
enosys = 38

abbrev pub eoverflow : ℕ
eoverflow = 75

abbrev pub eilseq : ℕ
eilseq = 84
