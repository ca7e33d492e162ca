-- ===== src/Sys/Dirent.antt =====
-- dirent.h. A `DIR *` is the 64-bit pattern of `~fd`, or NULL. NAME_MAX and O_RDONLY are parameters,
-- and so are the addresses of the local buffer `ldir` and of lseek's `loff`. Of a `struct
-- linux_dirent64` the offset stands at 8 and the name at 19; of a `struct dirent` the name stands at 8.
pub mod Entries
pub mod Listing
use nolibc.Prelude.{ℕ, ◌+◌, ◌-◌, ◌%◌, ◌^◌, Option, none, some, ◌==◌, if◌then◌else◌, ◌>>=◌}
use nolibc.Prelude.Words.{neg32, is_neg32, is_neg64, extend}
use nolibc.Errno.{ebadf}
use nolibc.Mem.Words.{load64, store64}
use nolibc.Str.Copy.{strlcpy}
use nolibc.Sys.World.{World, Kernel, Numbers, Cmd}
use nolibc.Sys.Fds.{close, sys_getdents64}
use nolibc.Sys.Open.{open_file}
use nolibc.Sys.Seek.{lseek}

-- what readdir_r returns, and what it stores through `result`
pub record Entry (K : Type 0) : Type 0 where
  pub world : World K
  pub code : ℕ
  pub result : Option ℕ

module _ {K : Type 0} (nr : Numbers) (call : Kernel K) where
  unfoldable pub fdopendir : ℕ → Cmd K
  fdopendir fd w =
      if is_neg32 fd then (record w { errno = ebadf }, 0) else (w, extend (2 ^ 32 - 1 - fd))

  unfoldable pub opendir : ℕ → ℕ → ℕ → Cmd K
  opendir o_creat o_rdonly name w =
      let (w', fd) = open_file nr call o_creat name o_rdonly 0 w in
      if fd == 2 ^ 32 - 1 then (w', 0) else fdopendir fd w'

  unfoldable pub closedir : ℕ → Cmd K
  closedir dirp w =
      if is_neg64 dirp
      then close nr call ((2 ^ 64 - 1 - dirp) % 2 ^ 32) w
      else (record w { errno = ebadf }, 2 ^ 32 - 1)

  -- the copy of the entry that the kernel left in the buffer
  unfoldable pub copy_entry : ℕ → ℕ → ℕ → ℕ → World K → Option (Entry K)
  copy_entry fuel name_max ldir entry w =
      let m = store64 w.mem entry (load64 w.mem ldir) in
      do
        (m', _) ← strlcpy fuel m (entry + 8) (ldir + 19) (name_max + 1)
        some (record { world = record w { mem = m' }; code = 0; result = some entry })

  unfoldable pub read_entry : ℕ → ℕ → ℕ → ℕ → ℕ → ℕ → World K → Option (Entry K)
  read_entry fuel name_max loff ldir fd entry w =
      let (w', ret) = sys_getdents64 nr call fd ldir (24 + name_max + 1) w in
      let (w'', pos') = lseek nr call loff fd (load64 w'.mem (ldir + 8)) 0 w' in
      let copied = copy_entry fuel name_max ldir entry w'' in
      if is_neg32 ret
      then some (record { world = w'; code = neg32 ret; result = none })
      else if ret == 0
      then some (record { world = w'; code = 0; result = some 0 })
      else if pos' % 2 ^ 32 == 2 ^ 32 - 1
      then some (record { world = w''; code = w''.errno; result = none })
      else copied

  unfoldable pub readdir_r : ℕ → ℕ → ℕ → ℕ → ℕ → ℕ → World K → Option (Entry K)
  readdir_r fuel name_max loff ldir dirp entry w =
      if is_neg64 dirp
      then read_entry fuel name_max loff ldir ((2 ^ 64 - 1 - dirp) % 2 ^ 32) entry w
      else some (record { world = w; code = ebadf; result = none })
