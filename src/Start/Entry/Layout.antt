-- ===== src/Start/Entry/Layout.antt =====
-- What the start-up code finds on the stack, and what getauxval and getenv find through it.
use nolibc.Prelude.{
  ℕ, zero, suc, ◌+◌, ◌*◌, ◌%◌, ◌^◌, ◌<◌, ◌≡◌, ◌≢◌, ap, refl, some, List, [], ◌∷◌, ◌++◌, arith,
  ne→==, length, All,
}
use nolibc.Mem.{Mem}
use nolibc.Mem.Words.Laws.{Words, Words-past}
use nolibc.Sys.World.{World, Kernel, Numbers, Cmd}
use nolibc.Start.Guard.{stack_chk_init}
use nolibc.Start.Auxv.{getauxval}
use nolibc.Start.Auxv.First.{aux_words, first_value, getauxval-first}
use nolibc.Start.Entry.{Arrays, Run, find_auxv, run_program, start_c}
use nolibc.Start.Entry.Life.{Life, run_program-Life}

-- the scan stops behind the first null pointer
find_auxv-Words :
    (envs rest : List ℕ) (fuel : ℕ) (m : Mem) (p q : ℕ)
    → q ≡ p + 8 * length envs
    → Words m p (envs ++ (0 ∷ rest))
    → All (λ e. e ≢ 0) envs
    → length envs < fuel
    → find_auxv fuel m p ≡ some (q + 8)
unfolding find_auxv
find_auxv-Words envs rest zero m p q e h nz f = absurd (omega arith)
find_auxv-Words [] rest (suc fuel) m p q e h nz f =
    let same : p ≡ q = omega arith in rw h.0 (ap (λ x. some (x + 8)) same)
find_auxv-Words (x ∷ envs) rest (suc fuel) m p q e (hx, h) (nx, nz) f = rw hx (
    rw (ne→== x 0 nx) (find_auxv-Words envs rest fuel m (p + 8) q (omega arith) h nz (omega arith)))

-- the environment with the null pointer behind it, and the auxiliary vector
abbrev pub env_words : List ℕ → List (ℕ × ℕ) → List ℕ
env_words envs pairs = envs ++ (0 ∷ aux_words pairs)

-- the stack of a new process: the arguments and their number, the environment, the auxiliary vector
abbrev pub Stack : Mem → ℕ → List ℕ → List ℕ → List (ℕ × ℕ) → Type 0
Stack m sp argvs envs pairs = Words m sp (length argvs ∷ (argvs ++ (0 ∷ env_words envs pairs)))

module _ {K : Type 0} (nr : Numbers) (call : Kernel K) (invoke : ℕ → List ℕ → World K → World K)
    (main : ℕ → ℕ → ℕ → Cmd K) (a : Arrays) (guard fuel sp : ℕ) (w0 : World K) (argvs envs : List ℕ)
    (pairs : List (ℕ × ℕ)) where
  -- Where the stack, once the guard is set up, holds the arguments, the environment and the
  -- auxiliary vector the way the kernel lays them out, within the address space, with no null
  -- pointer among the environment and no type 0 in the vector: _start_c, given enough fuel, sets
  -- environ to the environment and _auxv so that getauxval finds the first value of each type. It
  -- calls the functions of __preinit_array and then those of __init_array, each array from the
  -- first on, and then main, all of these with the number of the arguments, the arguments and the
  -- environment; then the functions of __fini_array from the last on; and at the end the exit of
  -- the kernel with the low byte of what main returned.
  pub start_c-Stack :
      Stack (stack_chk_init nr call guard w0).mem sp argvs envs pairs
      → All (λ e. e ≢ 0) envs
      → All (λ e. e.0 ≢ 0) pairs
      → length envs < fuel
      → length pairs < fuel
      → sp + 8 * length argvs + 16 < 2 ^ 64
      → (r : Run K) × (start_c nr call invoke main a guard fuel sp w0 ≡ some r)
        × (r.environ ≡ sp + 8 * length argvs + 16)
        × Words (stack_chk_init nr call guard w0).mem r.environ (env_words envs pairs)
        × Life nr call invoke main a
            (length argvs % 2 ^ 32)
            (sp + 8)
            r.environ
            (stack_chk_init nr call guard w0)
            r.world
        × ((type_ : ℕ)
            → getauxval fuel (stack_chk_init nr call guard w0).mem r.auxv type_
              ≡ some (first_value type_ pairs))
  unfolding start_c
  start_c-Stack h nze nzp fe fp l =
      let w = stack_chk_init nr call guard w0 in
      let envp = sp + 8 * length argvs + 16 in
      let auxv = envp + 8 * length envs + 8 in
      let tail = env_words envs pairs in
      let place : (sp + 8 + 8 * length argvs + 8) % 2 ^ 64 ≡ envp = omega arith in
      let at_env : Words w.mem envp tail =
        Words-past w.mem (sp + 8) envp argvs 0 tail (omega arith) h.1 in
      let found =
        find_auxv-Words envs (aux_words pairs) fuel w.mem envp (envp + 8 * length envs) refl at_env
          nze fe in
      (
        record {
          environ = envp;
          auxv = auxv;
          world = run_program nr call invoke main a (length argvs % 2 ^ 32) (sp + 8) envp w;
        },
        rw (h.0) (rw place (rw found refl)),
        refl,
        at_env,
        run_program-Life nr call invoke main a (length argvs % 2 ^ 32) (sp + 8) envp w,
        (λ type_.
            getauxval-first pairs fuel w.mem auxv type_ (omega arith)
              (Words-past w.mem envp auxv envs 0 (aux_words pairs) refl at_env) nzp fp),
      )
