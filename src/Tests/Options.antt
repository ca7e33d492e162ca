-- ===== src/Tests/Options.antt =====
-- `getopt` on the command line "prog -ab -ov file" with the option string "abo:".
use nolibc.Prelude.{ℕ, ◌≤◌, ◌≡◌, refl, [], ◌∷◌, some, not, ◌==◌, arith, codes}
use nolibc.Mem.{Mem, CStr, poke, write_all}
use nolibc.Mem.Words.{load64}
use nolibc.Getopt.{Getopt, Outcome, getopt}
use nolibc.Getopt.Machine.{View, before, next_answer}
use nolibc.Getopt.CommandLine.{Shows, Gives}
use nolibc.Getopt.Calls.{begins_with, body}
use nolibc.Getopt.Refinement.{getopt-Gives}
use nolibc.Getopt.Progress.{EndsAfter, size, getopt-EndsAfter}

abbrev line : Mem
unfolding write_all
line =
    let texts =
      write_all
        (write_all (write_all (write_all (λ _. 0) 100 (codes "-ab")) 110 (codes "-ov")) 120
          (codes "file"))
        130 (codes "abo:") in
    poke (poke (poke (poke texts 200 90) 208 100) 216 110) 224 120

abbrev fresh : Getopt
fresh = record { optarg = 0; optind = 1; opterr = 1; optopt = 0; optpos = 0 }

abbrev whole : View
whole = before [] (codes "-ab" ∷ codes "-ov" ∷ codes "file" ∷ [])

options-CStr : CStr line 130 (codes "abo:")
unfolding line
options-CStr = ground arith

fresh-Shows : Shows line 4 200 fresh whole
unfolding line load64
fresh-Shows = record { between = refl; counted = refl; started = omega arith; words = ground arith }

getopt-Gives_example :
    (o : Outcome) × (getopt 9 line 4 200 130 fresh ≡ some o)
    × Gives line 4 200 0 0 1 o (
        next_answer
          (begins_with b':' (body (codes "abo:")))
          (not (1 == 0))
          (begins_with b'-' (codes "abo:"))
          (body (codes "abo:"))
          whole)
getopt-Gives_example =
    getopt-Gives line 4 200 9 130 (codes "abo:") fresh whole (omega arith) options-CStr
      (omega arith) fresh-Shows

getopt-EndsAfter_example : (n : ℕ) × EndsAfter line 4 200 9 130 n fresh × (n ≤ size whole)
getopt-EndsAfter_example =
    getopt-EndsAfter line 4 200 9 130 (codes "abo:") fresh whole (omega arith) options-CStr
      (omega arith) fresh-Shows
