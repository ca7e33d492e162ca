-- ===== src/Getopt/Options.antt =====
-- One option of `getopt`: what a call does once it has taken the option's character.
use nolibc.Prelude.{
  ℕ, ◌+◌, ◌*◌, ◌%◌, ◌^◌, ◌≤◌, ◌<◌, ◌≡◌, ◌≢◌, ◌∙◌, refl, Bool, true, false, not, ◌&&◌, ◌||◌, some,
  List, [], ◌∷◌, ◌==◌, if◌then◌else◌, arith, length, inl, inr, Bool-cases, ne→==,
}
use mathlib.Core.Path.{subst}
use nolibc.Prelude.Words.{extend, le_s32, char32}
use nolibc.Mem.{Mem, CStr}
use nolibc.Mem.Words.{load64}
use nolibc.Getopt.{
  Getopt, Outcome, match_option, take_argument, argument, option_loop, silent, unrecognized,
  requires,
}
use nolibc.Getopt.Machine.{Kind, unknown, flag, required, optional, kind_of, before, act}
use nolibc.Getopt.Argument.{took, take_argument-took, not_taken}
use nolibc.Getopt.Search.{Reading, option_loop-Reading}
use nolibc.Getopt.CommandLine.{
  le_s32_lem, small_extend, argument-load64, Strings, Front, Shows, Shows-optopt, Gives, Bounded,
}

module _ (m : Mem) (argc argv : ℕ) (bounds : Bounded argc argv) (fuel options optchar : ℕ)
    (opts : List ℕ) (format : CStr m options opts) (enough : length opts < fuel) where
  abbrev colon : Bool
  colon = m options == b':'

  abbrev noisy : Getopt → Bool
  noisy s = not (s.opterr == 0)

  -- the outcome of the call, from the state `s` behind the character
  abbrev Acts : Getopt → ℕ → List ℕ → List (List ℕ) → Kind → Type 0
  Acts s c cs ws k =
      (o : Outcome) × (match_option fuel m argc argv options c optchar s ≡ some o)
      × Gives m argc argv s.optarg s.optopt s.opterr o (act colon (noisy s) k c cs ws)

  module _ (s : Getopt) (c d j : ℕ) (char_ : m optchar ≡ c)
      (run : option_loop fuel m options c 0 ≡ some (d, j)) where
    unknown_option :
        (cs : List ℕ) (ws : List (List ℕ))
        → Shows m argc argv s (before cs ws)
        → Reading m c d (options + j) unknown
        → Acts s c cs ws unknown
    unfolding match_option
    unknown_option cs ws shown r = (
      record {
        state = record s { optopt = char32 c };
        result = b'?';
        message = if not colon && noisy s then unrecognized c else silent;
      },
      rw run (rw r (rw char_ refl)),
      record {
        shown = Shows-optopt m argc argv s (char32 c) cs ws shown;
        same_result = refl;
        same_message = refl;
        argument = refl;
        option = refl;
        kept = refl;
      },
    )

    flag_option :
        (cs : List ℕ) (ws : List (List ℕ))
        → Shows m argc argv s (before cs ws)
        → Reading m c d (options + j) flag
        → Acts s c cs ws flag
    unfolding match_option
    flag_option cs ws shown r = (
      record { state = s; result = char32 c; message = silent },
      rw run (rw r.0 (rw r.1 refl)),
      record {
        shown = shown;
        same_result = refl;
        same_message = refl;
        argument = refl;
        option = refl;
        kept = refl;
      },
    )

    -- an argument that was found
    gives_argument :
        (t : Getopt)
        → ((not (d == c) || (c == b':')) ≡ false)
        → ((m (options + j) == b':') ≡ true)
        → take_argument m argv options j s ≡ t
        → t.optind ≤ argc
        → match_option fuel m argc argv options c optchar s
          ≡ some (record { state = t; result = char32 c; message = silent })
    unfolding match_option
    gives_argument t f y e le =
        let fits : le_s32 t.optind argc ≡ true =
          le_s32_lem t.optind argc (omega arith) (omega arith) ∙ ground arith in
        rw run (rw f (rw y (rw e (rw fits refl))))

    -- the rest of the current word
    attached :
        (x : ℕ) (cs : List ℕ) (ws : List (List ℕ))
        → Shows m argc argv s (before (x ∷ cs) ws)
        → ((not (d == c) || (c == b':')) ≡ false)
        → ((m (options + j) == b':') ≡ true)
        → (t : Getopt) × (match_option fuel m argc argv options c optchar s
            ≡ some (record { state = t; result = char32 c; message = silent }))
          × Front m argc argv t ws
          × CStr m t.optarg (x ∷ cs)
          × (t.optopt ≡ s.optopt)
          × (t.opterr ≡ s.opterr)
    attached x cs ws (el, f) found colon_ =
        let moving = ne→== s.optpos 0 (omega (arith, f.moving)) in
        let place : (argument m argv s.optind + extend s.optpos) % 2 ^ 64 ≡ el + s.optpos =
          rw (argument-load64 m argc argv bounds s.optind (omega (arith, f.counted)) ∙ f.element)
            (rw (small_extend s.optpos (omega (arith, f.short))) (omega (arith, f.fits))) in
        (
          took s (el + s.optpos),
          gives_argument (took s (el + s.optpos)) found colon_
              (take_argument-took m argc argv bounds options s j (el + s.optpos)
                (rw moving (ground arith)) (omega (arith, f.counted)) (rw moving place))
              (omega (arith, f.counted)),
          record { between = refl; counted = f.counted; started = omega arith; words = f.words },
          f.left,
          refl,
          refl,
        )

    -- the next word
    separate :
        (w : List ℕ) (ws : List (List ℕ))
        → Shows m argc argv s (before [] (w ∷ ws))
        → Reading m c d (options + j) required
        → Acts s c [] (w ∷ ws) required
    separate w ws f r =
        let a = load64 m (argv + 8 * s.optind) in
        let resting : (s.optpos == 0) ≡ true = rw f.between refl in
        (
          record { state = took s a; result = char32 c; message = silent },
          gives_argument (took s a) r.0 r.1
              (take_argument-took m argc argv bounds options s j a (ground (arith, r.2))
                (omega (arith, f.counted))
                (rw resting
                  (argument-load64 m argc argv bounds s.optind (omega (arith, f.counted)))))
              (omega (arith, f.counted)),
          record {
            shown = record {
              between = refl;
              counted = omega (arith, f.counted);
              started = omega arith;
              words = subst (λ y. Strings m y ws) (omega arith) f.words.4;
            };
            same_result = refl;
            same_message = refl;
            argument = f.words.1;
            option = refl;
            kept = refl;
          },
        )

    -- no word is left
    misses :
        Shows m argc argv s (before [] [])
        → Reading m c d (options + j) required
        → Acts s c [] [] required
    unfolding match_option
    misses f r =
        let a = argument m argv s.optind in
        let resting : (s.optpos == 0) ≡ true = rw f.between refl in
        let taken =
          take_argument-took m argc argv bounds options s j a (ground (arith, r.2))
            (omega (arith, f.counted)) (rw resting refl) in
        let beyond : le_s32 (s.optind + 1) argc ≡ false =
          le_s32_lem (s.optind + 1) argc (omega (arith, f.counted)) (omega arith)
          ∙ ground (arith, f.counted) in
        elim (Bool-cases colon) [
          | inl y ↦ (
            record {
              state = record (took s a) { optopt = char32 c };
              result = b':';
              message = silent;
            },
            rw run (rw r.0 (rw r.1 (rw taken (rw beyond (rw y refl))))),
            record {
              shown = omega (arith, f.counted);
              same_result = rw y refl;
              same_message = rw y refl;
              argument = tt;
              option = refl;
              kept = refl;
            },
          )
          | inr n ↦ (
            record {
              state = record (took s a) { optopt = char32 c };
              result = b'?';
              message = if not colon && noisy s then requires c else silent;
            },
            rw run (rw r.0 (rw r.1 (rw taken (rw beyond (rw char_ (rw n refl)))))),
            record {
              shown = omega (arith, f.counted);
              same_result = rw n refl;
              same_message = refl;
              argument = tt;
              option = refl;
              kept = refl;
            },
          )
        ]

    -- an optional argument must stand in the current word
    optional_absent :
        (ws : List (List ℕ))
        → Shows m argc argv s (before [] ws)
        → Reading m c d (options + j) optional
        → Acts s c [] ws optional
    optional_absent ws f r = (
      record { state = record s { optarg = 0 }; result = char32 c; message = silent },
      gives_argument (record s { optarg = 0 }) r.0 r.1
          (not_taken m argc argv bounds options s j r.2 f.between) (omega (arith, f.counted)),
      record {
        shown = record {
          between = f.between;
          counted = f.counted;
          started = f.started;
          words = f.words;
        };
        same_result = refl;
        same_message = refl;
        argument = refl;
        option = refl;
        kept = refl;
      },
    )

    act_on :
        (k : Kind) (cs : List ℕ) (ws : List (List ℕ))
        → Shows m argc argv s (before cs ws)
        → Reading m c d (options + j) k
        → Acts s c cs ws k
    act_on unknown cs ws shown r = unknown_option cs ws shown r
    act_on flag cs ws shown r = flag_option cs ws shown r
    act_on required [] [] shown r = misses shown r
    act_on required [] (w ∷ ws) shown r = separate w ws shown r
    act_on required (x ∷ cs) ws shown r =
        let (t, e, f, a, o, k) = attached x cs ws shown r.0 r.1 in
        (
          record { state = t; result = char32 c; message = silent },
          e,
          record {
            shown = f;
            same_result = refl;
            same_message = refl;
            argument = a;
            option = o;
            kept = k;
          },
        )
    act_on optional [] ws shown r = optional_absent ws shown r
    act_on optional (x ∷ cs) ws shown r =
        let (t, e, f, a, o, k) = attached x cs ws shown r.0 r.1 in
        (
          record { state = t; result = char32 c; message = silent },
          e,
          record {
            shown = f;
            same_result = refl;
            same_message = refl;
            argument = a;
            option = o;
            kept = k;
          },
        )

  -- the option character `c`, with `cs` and `ws` behind it
  pub match_option-act :
      (s : Getopt) (c : ℕ) (cs : List ℕ) (ws : List (List ℕ))
      → Shows m argc argv s (before cs ws)
      → m optchar ≡ c
      → c ≢ 0
      → (o : Outcome) × (match_option fuel m argc argv options c optchar s ≡ some o)
        × Gives m argc argv s.optarg s.optopt s.opterr o
            (act (m options == b':') (not (s.opterr == 0)) (kind_of c opts) c cs ws)
  match_option-act s c cs ws shown char_ nz =
      let (d, j, run, read) =
        option_loop-Reading m options c opts fuel 0 options format (omega arith) enough nz in
      act_on s c d j char_ run (kind_of c opts) cs ws shown read
