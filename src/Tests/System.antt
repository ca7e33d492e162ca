-- ===== src/Tests/System.antt =====
-- Tests of the system interfaces: the status of a child, device numbers, the start of a program. The
-- codes of `siginfo_t` are those of Linux.
use nolibc.Prelude.{
  ℕ, ◌+◌, ◌^◌, ◌<◌, ◌≡◌, ◌≢◌, ◌-◌, refl, some, true, false, List, [], ◌∷◌, ◌++◌, arith,
}
use nolibc.Mem.{Mem}
use nolibc.Mem.Words.{load64, store64}
use nolibc.Mem.Words.Laws.{Words}
use nolibc.Sys.World.{World, Kernel, syscall}
use nolibc.Sys.Wait.{WaitAbi}
use nolibc.Sys.Wait.Status.{Distinct, Gives, wait_status-Says}
use nolibc.Sys.Stat.{encode_dev, makedev, major, minor}
use nolibc.Sys.Stat.Device.{encode_dev-major}
use nolibc.Start.Guard.{stack_chk_init}
use nolibc.Start.Guard.Nonzero.{KeepsBytes, stack_chk_init-nonzero}
use nolibc.Start.Auxv.{getauxval}
use nolibc.Start.Auxv.First.{first_value}
use nolibc.Start.Entry.{Arrays, Run, start_c}
use nolibc.Start.Entry.Life.{Life}
use nolibc.Start.Entry.Layout.{Stack, env_words, start_c-Stack}
use nolibc.Tests.Calls.{numbers}

abbrev linux : WaitAbi
linux = record {
  p_all = 0;
  p_pid = 1;
  p_pgid = 2;
  wexited = 4;
  cld_exited = 1;
  cld_killed = 2;
  cld_dumped = 3;
  cld_trapped = 4;
  cld_stopped = 5;
  cld_continued = 6;
  si_code = λ b. b 8;
  si_status = λ b. b 24;
  si_pid = λ b. b 16;
}

linux-Distinct : Distinct linux
linux-Distinct = omega arith

wait_status-Says_example :
    Gives linux 1 3 true 3 0 false
    × Gives linux 2 3 false 0 3 true
    × Gives linux 3 3 false 0 3 true
    × (3 < 2 ^ 23 → Gives linux 5 3 false 3 127 false)
wait_status-Says_example = wait_status-Says linux linux-Distinct 3

encode_dev-major_example :
    (major (encode_dev 8 17) ≡ 8)
    × (minor (encode_dev 8 17) ≡ 17)
    × (17 < 256 → makedev 8 17 ≡ encode_dev 8 17)
encode_dev-major_example = encode_dev-major 8 17 (omega arith) (omega arith)

-- a kernel that fails each call
abbrev failing : Kernel ℕ
failing n args k m = (k, m, 2 ^ 64 - 38)

failing-KeepsBytes : KeepsBytes failing
failing-KeepsBytes n args k m bytes = bytes

abbrev fresh : World ℕ
fresh = record { mem = λ _. 0; errno = 0; kernel = 0 }

stack_chk_init-nonzero_example :
    (load64 (stack_chk_init numbers failing 0x7000 fresh).mem 0x7000 ≢ 0)
    × ((stack_chk_init numbers failing 0x7000 fresh).errno ≡ 0)
stack_chk_init-nonzero_example =
    stack_chk_init-nonzero numbers failing 0x7000 fresh failing-KeepsBytes (λ _. omega arith)
      (omega arith) (omega arith)

-- words written one after the other
abbrev put_words : Mem → ℕ → List ℕ → Mem
unfolding store64
put_words m p [] = m
put_words m p (x ∷ xs) = put_words (store64 m p x) (p + 8) xs

-- one argument, two environment variables, the page size; one function to run at first, two constructors,
-- two destructors
abbrev loaded : World (List ℕ)
unfolding put_words
loaded = record {
  mem =
      put_words
        (put_words (put_words (put_words (λ _. 0) 0x2000 (11 ∷ [])) 0x3000 (21 ∷ 22 ∷ [])) 0x4000
          (31 ∷ 32 ∷ []))
        0x1000 (1 ∷ 50 ∷ 0 ∷ 60 ∷ 70 ∷ 0 ∷ 6 ∷ 4096 ∷ 0 ∷ 0 ∷ []);
  errno = 0;
  kernel = [];
}

abbrev arrays : Arrays
arrays = record {
  preinit_start = 0x2000;
  preinit_end = 0x2008;
  init_start = 0x3000;
  init_end = 0x3010;
  fini_start = 0x4000;
  fini_end = 0x4010;
}

-- a kernel that fails each call, functions and a program, all of which note how they are called
abbrev noting : Kernel (List ℕ)
noting n args k m = (k ++ (n ∷ args), m, 2 ^ 64 - 38)

abbrev noted : ℕ → List ℕ → World (List ℕ) → World (List ℕ)
noted f args w = record w { kernel = w.kernel ++ (f ∷ args) }

abbrev program : ℕ → ℕ → ℕ → World (List ℕ) → World (List ℕ) × ℕ
program argc argv envp w = (noted 1 (argc ∷ argv ∷ envp ∷ []) w, 258)

loaded-Stack :
    Stack
      (stack_chk_init numbers noting 0x7000 loaded).mem
      0x1000
      (50 ∷ [])
      (60 ∷ 70 ∷ [])
      ((6, 4096) ∷ [])
unfolding loaded stack_chk_init load64 store64 syscall
loaded-Stack = (refl, (refl, (refl, (refl, (refl, (refl, (refl, (refl, (refl, (refl, tt))))))))))

start_c-Stack_example :
    (r : Run (List ℕ)) × (start_c numbers noting noted program arrays 0x7000 10 0x1000 loaded
      ≡ some r)
    × (r.environ ≡ 0x1018)
    × Words
        (stack_chk_init numbers noting 0x7000 loaded).mem
        r.environ
        (env_words (60 ∷ 70 ∷ []) ((6, 4096) ∷ []))
    × Life numbers noting noted program arrays 1 0x1008 r.environ
        (stack_chk_init numbers noting 0x7000 loaded)
        r.world
    × ((type_ : ℕ)
        → getauxval 10 (stack_chk_init numbers noting 0x7000 loaded).mem r.auxv type_
          ≡ some (first_value type_ ((6, 4096) ∷ [])))
start_c-Stack_example =
    start_c-Stack numbers noting noted program arrays 0x7000 10 0x1000 loaded (50 ∷ [])
      (60 ∷ 70 ∷ []) ((6, 4096) ∷ []) loaded-Stack (omega arith, (omega arith, tt))
      (omega arith, tt) (omega arith) (omega arith) (omega arith)
