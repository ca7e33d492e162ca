-- ===== src/Start/Entry.antt =====
-- `_start_c` of crt.h, and `exit` of sys.h. The program's own code is a parameter: `main`, and
-- `invoke`, which runs the constructor or destructor at an address. The linker gives the ends of the
-- arrays of such functions. `none` means that the fuel for the scan of the environment ran out.
pub mod Layout
pub mod Life
use Prim.Native.Nat.{bit_and}
use nolibc.Prelude.{
  ℕ, zero, suc, ◌+◌, ◌*◌, ◌/◌, ◌-◌, ◌%◌, ◌^◌, Option, none, some, List, [], ◌∷◌, ◌==◌,
  if◌then◌else◌, ◌>>=◌,
}
use nolibc.Mem.{Mem}
use nolibc.Mem.Words.{load64}
use nolibc.Sys.World.{World, Kernel, Numbers, Cmd, syscall}
use nolibc.Start.Guard.{stack_chk_init}

-- the arrays `__preinit_array`, `__init_array` and `__fini_array`
pub record Arrays : Type 0 where
  pub preinit_start : ℕ
  pub preinit_end : ℕ
  pub init_start : ℕ
  pub init_end : ℕ
  pub fini_start : ℕ
  pub fini_end : ℕ

-- the global variables that the start-up code sets, and the world when the program has ended
pub record Run (K : Type 0) : Type 0 where
  pub environ : ℕ
  pub auxv : ℕ
  pub world : World K

-- `for (auxv = envp; *auxv++;)`
unfoldable pub find_auxv : ℕ → Mem → ℕ → Option ℕ
find_auxv zero m auxv = none
find_auxv (suc fuel) m auxv =
    let rest = find_auxv fuel m (auxv + 8) in if load64 m auxv == 0 then some (auxv + 8) else rest

-- how often `func < end` holds when `func` begins at `start` and moves on by a pointer's size
unfoldable pub entries : ℕ → ℕ → ℕ
entries start end = (end - start + 7) / 8

module _ {K : Type 0} (invoke : ℕ → List ℕ → World K → World K) where
  -- the functions of an array, from the first on, of which `n` are left
  unfoldable pub run_ctors : ℕ → ℕ → List ℕ → World K → World K
  run_ctors zero func args w = w
  run_ctors (suc n) func args w = run_ctors n (func + 8) args (invoke (load64 w.mem func) args w)

  -- `*--func`, from the last on
  unfoldable pub run_dtors : ℕ → ℕ → World K → World K
  run_dtors zero func w = w
  run_dtors (suc n) func w = run_dtors n (func - 8) (invoke (load64 w.mem (func - 8)) [] w)

module _ {K : Type 0} (nr : Numbers) (call : Kernel K) where
  -- what is done before the endless loop
  unfoldable pub sys_exit : ℕ → World K → World K
  sys_exit status w = let (w', _) = syscall call nr.exit (bit_and status 255 ∷ []) w in w'

  -- `_exit`
  unfoldable pub exit_now : ℕ → World K → World K
  exit_now status = sys_exit status

  unfoldable pub exit : ℕ → World K → World K
  exit status = exit_now status

  -- from the constructors on
  unfoldable pub run_program :
      (ℕ → List ℕ → World K → World K)
      → (ℕ → ℕ → ℕ → Cmd K)
      → Arrays
      → ℕ
      → ℕ
      → ℕ
      → World K
      → World K
  run_program invoke main a argc argv envp w =
      let args = argc ∷ argv ∷ envp ∷ [] in
      let w1 = run_ctors invoke (entries a.preinit_start a.preinit_end) a.preinit_start args w in
      let w2 = run_ctors invoke (entries a.init_start a.init_end) a.init_start args w1 in
      let (w3, code) = main argc argv envp w2 in
      exit code (run_dtors invoke (entries a.fini_start a.fini_end) a.fini_end w3)

  unfoldable pub start_c :
      (ℕ → List ℕ → World K → World K)
      → (ℕ → ℕ → ℕ → Cmd K)
      → Arrays
      → ℕ
      → ℕ
      → ℕ
      → World K
      → Option (Run K)
  start_c invoke main a guard fuel sp w0 =
      let w = stack_chk_init nr call guard w0 in
      let argc = load64 w.mem sp in
      let argv = sp + 8 in
      let envp = (argv + 8 * argc + 8) % 2 ^ 64 in
      do
        auxv ← find_auxv fuel w.mem envp
        some (record {
          environ = envp;
          auxv = auxv;
          world = run_program invoke main a (argc % 2 ^ 32) argv envp w;
        })
