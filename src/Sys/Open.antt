-- ===== src/Sys/Open.antt =====
-- `open` and `openat` of fcntl.h, `access` and `faccessat` of unistd.h. `o_creat` is the kernel's
-- O_CREAT; the argument `mode` is the one that the caller passes after the flags, if any.
use Prim.Native.Nat.{bit_and}
use nolibc.Prelude.{ℕ, [], ◌∷◌, ◌==◌, if◌then◌else◌}
use nolibc.Sys.World.{Kernel, Numbers, Cmd, syscall, int_result, sysret32}

module _ {K : Type 0} (nr : Numbers) (call : Kernel K) where
  unfoldable pub sys_openat : ℕ → ℕ → ℕ → ℕ → Cmd K
  sys_openat dirfd path flags mode =
      int_result (syscall call nr.openat (dirfd ∷ path ∷ flags ∷ mode ∷ []))

  unfoldable pub openat : ℕ → ℕ → ℕ → ℕ → ℕ → Cmd K
  openat o_creat dirfd path flags mode =
      sysret32 (sys_openat dirfd path flags (if bit_and flags o_creat == 0 then 0 else mode))

  unfoldable pub sys_open : ℕ → ℕ → ℕ → Cmd K
  sys_open path flags mode =
      int_result (syscall call nr.openat (nr.at_fdcwd ∷ path ∷ flags ∷ mode ∷ []))

  unfoldable pub open_file : ℕ → ℕ → ℕ → ℕ → Cmd K
  open_file o_creat path flags mode =
      sysret32 (sys_open path flags (if bit_and flags o_creat == 0 then 0 else mode))

  unfoldable pub sys_faccessat : ℕ → ℕ → ℕ → ℕ → Cmd K
  sys_faccessat fd path amode flag =
      int_result (syscall call nr.faccessat (fd ∷ path ∷ amode ∷ flag ∷ []))

  unfoldable pub faccessat : ℕ → ℕ → ℕ → ℕ → Cmd K
  faccessat fd path amode flag = sysret32 (sys_faccessat fd path amode flag)

  unfoldable pub access : ℕ → ℕ → Cmd K
  access path amode = faccessat nr.at_fdcwd path amode 0
