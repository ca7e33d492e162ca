-- ===== src/Getopt/Argument.antt =====
-- The argument of an option: what `take_argument` leaves where it takes one, and where it does not.
use nolibc.Prelude.{ℕ, ◌+◌, ◌%◌, ◌^◌, ◌≤◌, ◌≡◌, refl, true, not, ◌||◌, ◌==◌, if◌then◌else◌}
use nolibc.Prelude.Words.{extend}
use nolibc.Mem.{Mem}
use nolibc.Getopt.{Getopt, take_argument, argument}
use nolibc.Getopt.CommandLine.{next_word, Bounded}

-- the state behind an option that took the text at `a`, in the current word or the next
abbrev pub took : Getopt → ℕ → Getopt
took s a = record s { optarg = a; optind = s.optind + 1; optpos = 0 }

module _ (m : Mem) (argc argv : ℕ) (bounds : Bounded argc argv) (options : ℕ) where
  pub take_argument-took :
      (s : Getopt) (i a : ℕ)
      → (not (m (options + i + 1) == b':') || not (s.optpos == 0)) ≡ true
      → s.optind ≤ argc
      → (if s.optpos == 0
          then argument m argv s.optind
          else (argument m argv s.optind + extend s.optpos) % 2 ^ 64)
        ≡ a
      → take_argument m argv options i s ≡ took s a
  unfolding take_argument
  take_argument-took s i a t le e = rw t (rw (next_word argc argv bounds s.optind le) (rw e refl))

  pub not_taken :
      (s : Getopt) (i : ℕ)
      → (m (options + i + 1) == b':') ≡ true
      → s.optpos ≡ 0
      → take_argument m argv options i s ≡ record s { optarg = 0 }
  unfolding take_argument
  not_taken s i y z = rw y (rw z refl)
