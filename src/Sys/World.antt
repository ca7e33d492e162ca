-- ===== src/Sys/World.antt =====
-- The kernel and the world of a program. The kernel is not part of the library: it is a function
-- from a call number and its arguments to the value that it returns, which may change the kernel's
-- state and the memory of the program. The numbers of the calls are in Numbers.
use nolibc.Prelude.{ℕ, ◌-◌, ◌%◌, ◌^◌, Option, none, some, List, if◌then◌else◌}
use nolibc.Prelude.Words.{neg32, neg64, is_neg32, is_neg64}
use nolibc.Errno.{enosys}
use nolibc.Mem.{Mem}
pub use nolibc.Sys.Numbers.{Numbers}

pub record World (K : Type 0) : Type 0 where
  pub mem : Mem
  pub errno : ℕ
  pub kernel : K

-- the state and the memory after the call, and the value returned, a 64-bit pattern
abbrev pub Kernel : Type 0 → Type 0
Kernel K = ℕ → List ℕ → K → Mem → K × Mem × ℕ

-- a function of the library: its result is the pattern of an `int` or a `long`
abbrev pub Cmd : Type 0 → Type 0
Cmd K = World K → World K × ℕ

module _ {K : Type 0} where
  -- `my_syscallN`
  unfoldable pub syscall : Kernel K → ℕ → List ℕ → Cmd K
  syscall call n args w =
      let (k, m, r) = call n args w.kernel w.mem in (record w { kernel = k; mem = m }, r)

  -- `#ifdef __NR_x` … `#else`
  abbrev pub attempt : Option ℕ → (ℕ → Cmd K) → Cmd K → Cmd K
  attempt none use_it other = other
  attempt (some n) use_it other = use_it n

  -- `__nolibc_enosys`
  unfoldable pub enosys_result : Cmd K
  enosys_result w = (w, neg64 enosys)

  -- a `long` returned as an `int`
  abbrev pub int_result : Cmd K → Cmd K
  int_result c w = let (w', r) = c w in (w', r % 2 ^ 32)

  -- `__sysret` on an `int` and on a `long`
  unfoldable pub sysret32 : Cmd K → Cmd K
  sysret32 c w =
      let (w', r) = c w in
      if is_neg32 r then (record w' { errno = neg32 r }, 2 ^ 32 - 1) else (w', r)

  unfoldable pub sysret64 : Cmd K → Cmd K
  sysret64 c w =
      let (w', r) = c w in
      if is_neg64 r then (record w' { errno = neg64 r % 2 ^ 32 }, 2 ^ 64 - 1) else (w', r)
