-- ===== src/Getopt/Refinement.antt =====
-- `getopt` implements the machine, whatever the command line and the state between two calls.
use nolibc.Prelude.{
  ℕ, ◌+◌, ◌*◌, ◌%◌, ◌^◌, ◌≤◌, ◌<◌, ◌≡◌, ◌≢◌, ◌∙◌, refl, sym, false, not, some, List, [], ◌∷◌, ◌==◌,
  arith, length, inl, inr, Bool-cases, ne→==, ==→eq, ==→ne,
}
use mathlib.Core.Path.{subst}
use nolibc.Mem.{Mem, CStr}
use nolibc.Mem.Words.{load64}
use nolibc.Getopt.{Getopt, Outcome, outcome, silent, minus_one, getopt}
use nolibc.Getopt.Machine.{View, before, past, Answer, done, operand, next_answer}
use nolibc.Getopt.CommandLine.{Strings, Front, Shows, Gives, Bounded, next_word}
use nolibc.Getopt.Calls.{
  begins_with, begins_with_lem, body, at_word, getopt-at_word, getopt_over, Inside-word,
}

module _ (m : Mem) (argc argv : ℕ) (bounds : Bounded argc argv) (fuel optstring : ℕ) (opts : List ℕ)
    (format : CStr m optstring opts) (enough : length opts < fuel) (s : Getopt) where
  -- the call gives the answer
  abbrev Calls : Answer → Type 0
  Calls a =
      (o : Outcome) × (getopt fuel m argc argv optstring s ≡ some o)
      × Gives m argc argv s.optarg s.optopt s.opterr o a

  abbrev answers : View → Answer
  answers =
      next_answer (begins_with b':' (body opts)) (not (s.opterr == 0)) (begins_with b'-' opts)
        (body opts)

  over :
      (v : View)
      → Shows m argc argv s v
      → 0 < s.optind
      → argc ≤ s.optind
      → s.optind ≤ argc + 1
      → Calls (done v)
  over v shown h l u = (
    outcome s minus_one silent,
    getopt_over m argc argv bounds fuel optstring opts format enough s h l u,
    record {
      shown = shown;
      same_result = refl;
      same_message = refl;
      argument = refl;
      option = refl;
      kept = refl;
    },
  )

  module _ (w : List ℕ) (ws : List (List ℕ)) (f : Front m argc argv s (w ∷ ws)) where
    abbrev el : ℕ
    el = load64 m (argv + 8 * s.optind)

    at_front :
        getopt fuel m argc argv optstring s
        ≡ at_word m argc argv bounds fuel optstring opts format enough s el
    at_front =
        getopt-at_word m argc argv bounds fuel optstring opts format enough s el f.started
          (omega (arith, f.counted)) refl f.words.0

    -- the state behind the word
    skipped :
        (a : ℕ) → Front m argc argv (record s { optarg = a; optind = (s.optind + 1) % 2 ^ 32 }) ws
    skipped a =
        let n = next_word argc argv bounds s.optind (omega (arith, f.counted)) in
        record {
          between = f.between;
          counted = rw n (omega (arith, f.counted));
          started = rw n (omega arith);
          words = subst (λ y. Strings m y ws) (rw n (omega arith)) f.words.4;
        }

    -- a word that is no option
    operand_word :
        (m el == b'-') ≡ false
        → Calls (
            operand
              (begins_with b':' (body opts))
              (not (s.opterr == 0))
              (begins_with b'-' opts)
              (body opts)
              w
              ws)
    operand_word e =
        let mode = begins_with_lem m optstring b'-' opts format (omega arith) in
        elim (Bool-cases (begins_with b'-' opts)) [
          | inl y ↦ (
            outcome (record s { optarg = el; optind = (s.optind + 1) % 2 ^ 32 }) 1 silent,
            at_front ∙ rw e (rw mode (rw y refl)),
            rw y (record {
              shown = skipped el;
              same_result = refl;
              same_message = refl;
              argument = f.words.1;
              option = refl;
              kept = refl;
            }),
          )
          | inr n ↦ (
            outcome s minus_one silent,
            at_front ∙ rw e (rw mode (rw n refl)),
            rw n (record {
              shown = f;
              same_result = refl;
              same_message = refl;
              argument = refl;
              option = refl;
              kept = refl;
            }),
          )
        ]

  -- a dash alone ends the options, and stays
  dash_alone :
      (ws : List (List ℕ))
      → Front m argc argv s ((b'-' ∷ []) ∷ ws)
      → Calls (done (before [] ((b'-' ∷ []) ∷ ws)))
  dash_alone ws f = (
    outcome s minus_one silent,
    at_front (b'-' ∷ []) ws f ∙ rw f.words.1.0 (rw f.words.1.2 refl),
    record {
      shown = f;
      same_result = refl;
      same_message = refl;
      argument = refl;
      option = refl;
      kept = refl;
    },
  )

  -- two dashes end the options, and are passed over
  two_dashes :
      (ws : List (List ℕ))
      → Front m argc argv s ((b'-' ∷ b'-' ∷ []) ∷ ws)
      → Calls (done (before [] ws))
  two_dashes ws f =
      let end : m (load64 m (argv + 8 * s.optind) + 2) ≡ 0 =
        subst (λ y. m y ≡ 0) (omega arith) f.words.1.2.2 in
      let next_ = skipped (b'-' ∷ b'-' ∷ []) ws f s.optarg in
      (
        outcome (record s { optind = (s.optind + 1) % 2 ^ 32 }) minus_one silent,
        at_front (b'-' ∷ b'-' ∷ []) ws f ∙ rw f.words.1.0 (rw f.words.1.2.0 (rw end refl)),
        record {
          shown = record {
            between = next_.between;
            counted = next_.counted;
            started = next_.started;
            words = next_.words;
          };
          same_result = refl;
          same_message = refl;
          argument = refl;
          option = refl;
          kept = refl;
        },
      )

  -- a word of options, from its first character on
  first_option :
      (c : ℕ) (cs : List ℕ) (ws : List (List ℕ))
      → Front m argc argv s ((b'-' ∷ c ∷ cs) ∷ ws)
      → (m (load64 m (argv + 8 * s.optind) + 1) ≡ b'-' → m (load64 m (argv + 8 * s.optind) + 2) ≢ 0)
      → Calls (answers (before (c ∷ cs) ws))
  first_option c cs ws f no_end =
      let el = load64 m (argv + 8 * s.optind) in
      let second : m (el + 1) ≡ c = f.words.1.2.0 in
      Inside-word m argc argv bounds fuel optstring opts format enough s el 1 c cs ws
        (record {
          element = refl;
          there = f.words.0;
          dash = f.words.1.0;
          longer = rw second f.words.1.2.1;
          no_end = no_end;
          left = f.words.1.2;
          fits = omega (arith, f.words.2);
          short = omega (arith, f.words.3);
          moving = omega arith;
          counted = omega (arith, f.counted);
          started = f.started;
          words = subst (λ y. Strings m y ws) (omega arith) f.words.4;
        })
        (rw f.between refl)

  -- a word that begins with a dash
  dashed :
      (w : List ℕ) (ws : List (List ℕ))
      → Front m argc argv s ((b'-' ∷ w) ∷ ws)
      → Calls (answers (before [] ((b'-' ∷ w) ∷ ws)))
  dashed [] ws f = dash_alone ws f
  dashed (c ∷ []) ws f = elim (Bool-cases (c == b'-')) [
    | inl y ↦
        rw y (
          two_dashes ws
            (subst (λ x. Front m argc argv s ((b'-' ∷ x ∷ []) ∷ ws)) (==→eq c b'-' y) f))
    | inr n ↦ rw n (first_option c [] ws f (λ e. absurd (==→ne c b'-' n (sym f.words.1.2.0 ∙ e))))
  ]
  dashed (c ∷ d ∷ cs) ws f =
      let el = load64 m (argv + 8 * s.optind) in
      let third : m (el + 2) ≡ d = subst (λ y. m y ≡ d) (omega arith) f.words.1.2.2.0 in
      first_option c (d ∷ cs) ws f (λ e. rw third f.words.1.2.2.1)

  -- a word that begins with another character
  undashed :
      (a : ℕ) (w : List ℕ) (ws : List (List ℕ))
      → Front m argc argv s ((a ∷ w) ∷ ws)
      → (a == b'-') ≡ false
      → Calls (answers (before [] ((a ∷ w) ∷ ws)))
  undashed a [] ws f n = rw n (operand_word (a ∷ []) ws f (rw f.words.1.0 n))
  undashed a (c ∷ []) ws f n = rw n (operand_word (a ∷ c ∷ []) ws f (rw f.words.1.0 n))
  undashed a (c ∷ d ∷ cs) ws f n = rw n (operand_word (a ∷ c ∷ d ∷ cs) ws f (rw f.words.1.0 n))

  answered : (v : View) → Shows m argc argv s v → Calls (answers v)
  answered (before (c ∷ cs) ws) (el, i) =
      Inside-word m argc argv bounds fuel optstring opts format enough s el s.optpos c cs ws i
        (rw (ne→== s.optpos 0 (omega (arith, i.moving))) refl)
  answered (before [] []) f =
      over (before [] []) f f.started (omega (arith, f.counted)) (omega (arith, f.counted))
  answered (before [] ([] ∷ ws)) f = operand_word [] ws f (rw f.words.1 refl)
  answered (before [] ((a ∷ w) ∷ ws)) f = elim (Bool-cases (a == b'-')) [
    | inl y ↦
        subst (λ x. Front m argc argv s ((x ∷ w) ∷ ws) → Calls (answers (before [] ((x ∷ w) ∷ ws))))
          (sym (==→eq a b'-' y)) (dashed w ws) f
    | inr n ↦ undashed a w ws f n
  ]
  answered past p = over past p (omega (arith, p)) (omega (arith, p)) (omega (arith, p))

-- Where the array of arguments lies in the address space, has fewer than 2 ^ 31 - 1 words, none at
-- a null pointer and each shorter than 2 ^ 31 bytes, and given more fuel than the option string has
-- bytes: whatever place in the command line the memory and the state of getopt show, a call
-- terminates, its result, optopt, message and, but where an option misses its argument, optarg are
-- those that the machine answers, and the state that it leaves shows the place that the machine
-- moves to.
pub getopt-Gives :
    (m : Mem) (argc argv fuel optstring : ℕ) (opts : List ℕ) (s : Getopt) (v : View)
    → Bounded argc argv
    → CStr m optstring opts
    → length opts < fuel
    → Shows m argc argv s v
    → (o : Outcome) × (getopt fuel m argc argv optstring s ≡ some o)
      × Gives m argc argv s.optarg s.optopt s.opterr o (
          next_answer
            (begins_with b':' (body opts))
            (not (s.opterr == 0))
            (begins_with b'-' opts)
            (body opts)
            v)
getopt-Gives m argc argv fuel optstring opts s v bounds format enough shown =
    answered m argc argv bounds fuel optstring opts format enough s v shown
