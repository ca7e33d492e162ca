-- ===== src/Sys/Stat.antt =====
-- sys/stat.h and sys/sysmacros.h. The kernel's `struct statx` is read from its memory by a function
-- that is a parameter, for its layout stands in the kernel's headers; `struct stat` is a record.
pub mod Device
use Prim.Native.Nat.{bit_and, bit_or}
use nolibc.Prelude.{
  ℕ, ◌+◌, ◌*◌, ◌/◌, ◌%◌, ◌^◌, ◌-◌, Option, none, some, [], ◌∷◌, ◌==◌, if◌then◌else◌,
}
use nolibc.Sys.World.{
  World, Kernel, Numbers, Cmd, syscall, attempt, enosys_result, int_result, sysret32,
}

-- seconds and nanoseconds
pub record Moment : Type 0 where
  pub tv_sec : ℕ
  pub tv_nsec : ℕ

pub record Statx : Type 0 where
  pub stx_dev_major : ℕ
  pub stx_dev_minor : ℕ
  pub stx_rdev_major : ℕ
  pub stx_rdev_minor : ℕ
  pub stx_ino : ℕ
  pub stx_mode : ℕ
  pub stx_nlink : ℕ
  pub stx_uid : ℕ
  pub stx_gid : ℕ
  pub stx_size : ℕ
  pub stx_blksize : ℕ
  pub stx_blocks : ℕ
  pub stx_atime : Moment
  pub stx_mtime : Moment
  pub stx_ctime : Moment

pub record Stat : Type 0 where
  pub st_dev : ℕ
  pub st_ino : ℕ
  pub st_mode : ℕ
  pub st_nlink : ℕ
  pub st_uid : ℕ
  pub st_gid : ℕ
  pub st_rdev : ℕ
  pub st_size : ℕ
  pub st_blksize : ℕ
  pub st_blocks : ℕ
  pub st_atim : Moment
  pub st_mtim : Moment
  pub st_ctim : Moment

-- constants of the kernel's headers, and the structure that its memory holds
pub record StatAbi : Type 0 where
  pub at_no_automount : ℕ
  pub at_empty_path : ℕ
  pub at_symlink_nofollow : ℕ
  pub statx_basic_stats : ℕ
  pub statx_at : (ℕ → ℕ) → Statx

-- `(minor & 0xff) | (major << 8) | ((minor & ~0xff) << 12)` on 32 bits
unfoldable pub encode_dev : ℕ → ℕ → ℕ
encode_dev major_ minor_ =
    bit_or (bit_or (bit_and minor_ 0xff) (major_ * 2 ^ 8 % 2 ^ 32))
      (bit_and minor_ (2 ^ 32 - 1 - 0xff) * 2 ^ 12 % 2 ^ 32)

unfoldable pub makedev : ℕ → ℕ → ℕ
makedev major_ minor_ = bit_or (bit_and major_ 0xfff * 2 ^ 8 % 2 ^ 32) (bit_and minor_ 0xff)

unfoldable pub major : ℕ → ℕ
major dev = bit_and (dev / 2 ^ 8) 0xfff

unfoldable pub minor : ℕ → ℕ
minor dev = bit_and dev 0xff

-- the copy of the fields
unfoldable pub stat_of_statx : Statx → Stat
stat_of_statx x = record {
  st_dev = encode_dev x.stx_dev_major x.stx_dev_minor;
  st_ino = x.stx_ino;
  st_mode = x.stx_mode;
  st_nlink = x.stx_nlink;
  st_uid = x.stx_uid;
  st_gid = x.stx_gid;
  st_rdev = encode_dev x.stx_rdev_major x.stx_rdev_minor;
  st_size = x.stx_size;
  st_blksize = x.stx_blksize;
  st_blocks = x.stx_blocks;
  st_atim = x.stx_atime;
  st_mtim = x.stx_mtime;
  st_ctim = x.stx_ctime;
}

module _ {K : Type 0} (nr : Numbers) (call : Kernel K) (abi : StatAbi) where
  unfoldable pub sys_statx : ℕ → ℕ → ℕ → ℕ → ℕ → Cmd K
  sys_statx fd path flags mask buf =
      int_result
        (attempt nr.statx (λ n. syscall call n (fd ∷ path ∷ flags ∷ mask ∷ buf ∷ [])) enosys_result)

  unfoldable pub statx : ℕ → ℕ → ℕ → ℕ → ℕ → Cmd K
  statx fd path flags mask buf = sysret32 (sys_statx fd path flags mask buf)

  -- `buf` is the address of the local `struct statx`; the last result is what is stored for the caller
  unfoldable pub fstatat : ℕ → ℕ → ℕ → ℕ → World K → World K × ℕ × Option Stat
  fstatat buf fd path flag w =
      let (w', ret) = statx fd path (bit_or flag abi.at_no_automount) abi.statx_basic_stats buf w in
      if ret == 2 ^ 32 - 1
      then (w', ret, none)
      else (w', 0, some (stat_of_statx (abi.statx_at (λ (i : ℕ). w'.mem (buf + i)))))

  unfoldable pub stat : ℕ → ℕ → World K → World K × ℕ × Option Stat
  stat buf path = fstatat buf nr.at_fdcwd path 0

  -- `empty` is the address of ""
  unfoldable pub fstat : ℕ → ℕ → ℕ → World K → World K × ℕ × Option Stat
  fstat buf empty fildes = fstatat buf fildes empty abi.at_empty_path

  unfoldable pub lstat : ℕ → ℕ → World K → World K × ℕ × Option Stat
  lstat buf path = fstatat buf nr.at_fdcwd path abi.at_symlink_nofollow
