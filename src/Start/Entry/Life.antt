-- ===== src/Start/Entry/Life.antt =====
-- What the start-up code runs, told without its loops: the functions of an array in their order, the
-- program, and what ends it. A function may change the memory that the next address is read from.
use nolibc.Prelude.{ℕ, zero, suc, ◌+◌, ◌-◌, ◌/◌, ◌%◌, ◌≤◌, ◌<◌, ◌≡◌, refl, ap, List, [], ◌∷◌, arith}
use nolibc.Prelude.Bits.{low_byte}
use nolibc.Mem.Words.{load64}
use nolibc.Sys.World.{World, Kernel, Numbers, Cmd, syscall}
use nolibc.Start.Entry.{
  Arrays, entries, run_ctors, run_dtors, sys_exit, exit_now, exit, run_program,
}

module _ {K : Type 0} (invoke : ℕ → List ℕ → World K → World K) where
  -- the functions whose addresses stand from `func` up to `end` are called upwards, each with `args`
  pub data Upwards (end : ℕ) (args : List ℕ) : ℕ → World K → World K → Type 0 where
    finished : (func : ℕ) (w : World K) → end ≤ func → Upwards end args func w w
    called :
        (func : ℕ) (w w' : World K)
        → func < end
        → Upwards end args (func + 8) (invoke (load64 w.mem func) args w) w'
        → Upwards end args func w w'

  -- the functions whose addresses stand from `start` up to `func` are called downwards, without arguments
  pub data Downwards (start : ℕ) : ℕ → World K → World K → Type 0 where
    finished : (func : ℕ) (w : World K) → func ≤ start → Downwards start func w w
    called :
        (func : ℕ) (w w' : World K)
        → start < func
        → Downwards start (func - 8) (invoke (load64 w.mem (func - 8)) [] w) w'
        → Downwards start func w w'

  run_ctors-Upwards :
      (n end func : ℕ) (args : List ℕ) (w : World K)
      → n ≡ (end - func + 7) / 8
      → Upwards end args func w (run_ctors invoke n func args w)
  unfolding run_ctors
  run_ctors-Upwards zero end func args w e = finished func w (omega arith)
  run_ctors-Upwards (suc n) end func args w e =
      called func w (run_ctors invoke (suc n) func args w) (omega arith)
        (run_ctors-Upwards n end (func + 8) args (invoke (load64 w.mem func) args w) (omega arith))

  run_dtors-Downwards :
      (n start func : ℕ) (w : World K)
      → n ≡ (func - start + 7) / 8
      → Downwards start func w (run_dtors invoke n func w)
  unfolding run_dtors
  run_dtors-Downwards zero start func w e = finished func w (omega arith)
  run_dtors-Downwards (suc n) start func w e =
      called func w (run_dtors invoke (suc n) func w) (omega arith) (
        run_dtors-Downwards n start (func - 8) (invoke (load64 w.mem (func - 8)) [] w)
          (omega arith))

module _ {K : Type 0} (nr : Numbers) (call : Kernel K) (invoke : ℕ → List ℕ → World K → World K)
    (main : ℕ → ℕ → ℕ → Cmd K) (a : Arrays) where
  -- The life of the program from the world `w` to `w'`: the constructors of both arrays, `main`, the
  -- destructors, and the call of the kernel that takes the low byte of what `main` returns.
  pub record Life (argc argv envp : ℕ) (w w' : World K) : Type 0 where
    pub prepared : World K
    pub begun : World K
    pub returned : World K
    pub code : ℕ
    pub undone : World K
    pub preinit : Upwards invoke a.preinit_end (argc ∷ argv ∷ envp ∷ []) a.preinit_start w prepared
    pub init : Upwards invoke a.init_end (argc ∷ argv ∷ envp ∷ []) a.init_start prepared begun
    pub body : main argc argv envp begun ≡ (returned, code)
    pub fini : Downwards invoke a.fini_start a.fini_end returned undone
    pub ended : w' ≡ (syscall call nr.exit (code % 256 ∷ []) undone).0

  pub run_program-Life :
      (argc argv envp : ℕ) (w : World K)
      → Life argc argv envp w (run_program nr call invoke main a argc argv envp w)
  unfolding run_program exit exit_now sys_exit entries
  run_program-Life argc argv envp w =
      let args = argc ∷ argv ∷ envp ∷ [] in
      let w1 = run_ctors invoke (entries a.preinit_start a.preinit_end) a.preinit_start args w in
      let w2 = run_ctors invoke (entries a.init_start a.init_end) a.init_start args w1 in
      let (w3, code) = main argc argv envp w2 in
      let w4 = run_dtors invoke (entries a.fini_start a.fini_end) a.fini_end w3 in
      record {
        prepared = w1;
        begun = w2;
        returned = w3;
        code = code;
        undone = w4;
        preinit =
            run_ctors-Upwards invoke (entries a.preinit_start a.preinit_end) a.preinit_end
              a.preinit_start args w refl;
        init =
            run_ctors-Upwards invoke (entries a.init_start a.init_end) a.init_end a.init_start args
              w1 refl;
        body = refl;
        fini =
            run_dtors-Downwards invoke (entries a.fini_start a.fini_end) a.fini_start a.fini_end w3
              refl;
        ended = ap (λ b. (syscall call nr.exit (b ∷ []) w4).0) (low_byte code);
      }
