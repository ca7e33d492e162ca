-- ===== src/Getopt/CommandLine.antt =====
-- How the memory of a program and the state of `getopt` show a view of the command line.
use nolibc.Prelude.{
  ℕ, ◌+◌, ◌*◌, ◌^◌, ◌≤◌, ◌<◌, ◌≡◌, ◌≢◌, Option, none, some, List, [], ◌∷◌, length, ◌%◌, leb, ap,
  arith,
}
use nolibc.Mem.{Mem, CStr}
use nolibc.Mem.Words.{load64}
use nolibc.Prelude.Words.{extend, le_s32}
use nolibc.Getopt.{Getopt, Outcome, argument}
use nolibc.Getopt.Machine.{View, before, past, Argument, unchanged, absent, value, missing, Answer}

-- the words whose addresses stand in the array from `a` on
abbrev pub Strings : Mem → ℕ → List (List ℕ) → Type 0
Strings m a [] = Unit
Strings m a (w ∷ ws) =
    (load64 m a ≢ 0)
    × CStr m (load64 m a) w
    × (load64 m a + length w < 2 ^ 64)
    × (length w < 2 ^ 31)
    × Strings m (a + 8) ws

module _ (m : Mem) (argc argv : ℕ) where
  -- between two words, of which `ws` are left
  pub record Front (s : Getopt) (ws : List (List ℕ)) : Type 0 where
    pub between : s.optpos ≡ 0
    pub counted : s.optind + length ws ≡ argc
    pub started : 0 < s.optind
    pub words : Strings m (argv + 8 * s.optind) ws

  -- inside the word `el` of options, at the character `c` at `pos`, with `cs` behind it
  pub record Inside (s : Getopt) (el pos c : ℕ) (cs : List ℕ) (ws : List (List ℕ)) : Type 0 where
    pub element : load64 m (argv + 8 * s.optind) ≡ el
    pub there : el ≢ 0
    pub dash : m el ≡ b'-'
    pub longer : m (el + 1) ≢ 0
    pub no_end : m (el + 1) ≡ b'-' → m (el + 2) ≢ 0
    pub left : CStr m (el + pos) (c ∷ cs)
    pub fits : el + pos + length (c ∷ cs) < 2 ^ 64
    pub short : pos + length (c ∷ cs) < 2 ^ 31
    pub moving : 0 < pos
    pub counted : s.optind + 1 + length ws ≡ argc
    pub started : 0 < s.optind
    pub words : Strings m (argv + 8 * (s.optind + 1)) ws

  abbrev pub Shows : Getopt → View → Type 0
  Shows s (before [] ws) = Front s ws
  Shows s (before (c ∷ cs) ws) = (el : ℕ) × Inside s el s.optpos c cs ws
  Shows s past = s.optind ≡ argc + 1

  -- what `optopt` holds does not matter
  pub Shows-optopt :
      (s : Getopt) (x : ℕ) (cs : List ℕ) (ws : List (List ℕ))
      → Shows s (before cs ws)
      → Shows (record s { optopt = x }) (before cs ws)
  Shows-optopt s x [] ws f = record {
    between = f.between;
    counted = f.counted;
    started = f.started;
    words = f.words;
  }
  Shows-optopt s x (c ∷ cs) ws (el, f) = (
    el,
    record {
      element = f.element;
      there = f.there;
      dash = f.dash;
      longer = f.longer;
      no_end = f.no_end;
      left = f.left;
      fits = f.fits;
      short = f.short;
      moving = f.moving;
      counted = f.counted;
      started = f.started;
      words = f.words;
    },
  )

  -- `optarg` behind a call, which was `old` before it
  abbrev pub Holds : ℕ → ℕ → Argument → Type 0
  Holds old now unchanged = now ≡ old
  Holds old now absent = now ≡ 0
  Holds old now (value w) = CStr m now w
  Holds old now missing = Unit

  abbrev pub option_after : ℕ → Option ℕ → ℕ
  option_after old none = old
  option_after old (some c) = c

  -- the outcome of a call that began with `optarg` and `optopt` is the answer
  pub record Gives (optarg optopt opterr : ℕ) (o : Outcome) (a : Answer) : Type 0 where
    pub shown : Shows o.state a.view
    pub same_result : o.result ≡ a.result
    pub same_message : o.message ≡ a.message
    pub argument : Holds optarg o.state.optarg a.argument
    pub option : o.state.optopt ≡ option_after optopt a.option
    pub kept : o.state.opterr ≡ opterr

-- the array of arguments lies in the address space, and the counters do not wrap
abbrev pub Bounded : ℕ → ℕ → Type 0
Bounded argc argv = (argc + 1 < 2 ^ 31) × (argv + 8 * (argc + 1) < 2 ^ 64)

-- the test of the code on an `int` that does not overflow
pub le_s32_lem : (a b : ℕ) → a < 2 ^ 31 → b < 2 ^ 31 → le_s32 a b ≡ leb a b
le_s32_lem a b h l = ground arith

pub small_extend : (a : ℕ) → a < 2 ^ 31 → extend a ≡ a
small_extend a h = ground arith

pub argument-load64 :
    (m : Mem) (argc argv : ℕ)
    → Bounded argc argv
    → (i : ℕ) → i ≤ argc
    → argument m argv i ≡ load64 m (argv + 8 * i)
argument-load64 m argc argv bounds i le =
    ap (load64 m) (rw (small_extend i (omega arith)) (omega arith))

pub next_word : (argc argv : ℕ) → Bounded argc argv → (i : ℕ) → i ≤ argc → (i + 1) % 2 ^ 32 ≡ i + 1
next_word argc argv bounds i le = omega arith
