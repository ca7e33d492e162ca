-- ===== src/Getopt/Calls.antt =====
-- Every call of `getopt` does what the machine says.
use nolibc.Prelude.{
  ℕ, ◌+◌, ◌*◌, ◌%◌, ◌^◌, ◌≤◌, ◌<◌, ◌≡◌, ◌≢◌, ◌∙◌, refl, ap, Bool, true, false, not, ◌&&◌, ◌||◌,
  Option, some, List, [], ◌∷◌, ◌==◌, if◌then◌else◌, arith, length, inl, inr, Bool-cases, ne→==,
}
use mathlib.Core.Path.{subst}
use nolibc.Prelude.Words.{extend, le_s32}
use nolibc.Mem.{Mem, CStr}
use nolibc.Mem.Words.{load64}
use nolibc.Getopt.{
  Getopt, Outcome, outcome, silent, minus_one, getopt, step_option, match_option, argument, next,
}
use nolibc.Getopt.Machine.{before, kind_of, act}
use nolibc.Getopt.CommandLine.{
  Inside, Shows, Gives, Bounded, le_s32_lem, small_extend, argument-load64, next_word,
}
use nolibc.Getopt.Options.{match_option-act}

-- whether a text begins with a character
abbrev pub begins_with : ℕ → List ℕ → Bool
begins_with c [] = false
begins_with c (d ∷ s) = d == c

-- the option string without the sign that sets the mode
abbrev pub body : List ℕ → List ℕ
body [] = []
body (c ∷ s) = if c == b'-' || c == b'+' then s else c ∷ s

pub begins_with_lem :
    (m : Mem) (p c : ℕ) (s : List ℕ) → CStr m p s → c ≢ 0 → (m p == c) ≡ begins_with c s
begins_with_lem m p c [] h nz = rw h (ground arith)
begins_with_lem m p c (d ∷ s) h nz = rw h.0 refl

-- where the options begin
abbrev skip : Mem → ℕ → ℕ
skip m optstring = if m optstring == b'-' || m optstring == b'+' then optstring + 1 else optstring

skip-body :
    (m : Mem) (optstring : ℕ) (s : List ℕ)
    → CStr m optstring s
    → CStr m (skip m optstring) (body s) × (length (body s) ≤ length s)
skip-body m optstring [] h = rw h (h, omega arith)
skip-body m optstring (c ∷ s) (e, nz, h) = elim (Bool-cases (c == b'-' || c == b'+')) [
  | inl y ↦ rw e (rw y (h, omega arith))
  | inr n ↦ rw e (rw n ((e, nz, h), omega arith))
]

module _ (m : Mem) (argc argv : ℕ) (bounds : Bounded argc argv) (fuel optstring : ℕ) (opts : List ℕ)
    (format : CStr m optstring opts) (enough : length opts < fuel) where
  abbrev Stepped : Getopt → ℕ → List ℕ → List (List ℕ) → Type 0
  Stepped s c cs ws =
      (o : Outcome) × (step_option fuel m argc argv optstring s ≡ some o)
      × Gives m argc argv s.optarg s.optopt s.opterr o
          (act (begins_with b':' (body opts)) (not (s.opterr == 0)) (kind_of c (body opts)) c cs ws)

  matched :
      (s' : Getopt) (optchar c : ℕ) (cs : List ℕ) (ws : List (List ℕ))
      → Shows m argc argv s' (before cs ws)
      → m optchar ≡ c
      → c ≢ 0
      → (o : Outcome) × (match_option fuel m argc argv (skip m optstring) c optchar s' ≡ some o)
        × Gives m argc argv s'.optarg s'.optopt s'.opterr o (
            act
              (begins_with b':' (body opts))
              (not (s'.opterr == 0))
              (kind_of c (body opts))
              c
              cs
              ws)
  matched s' optchar c cs ws shown char_ nz =
      let (there, shorter) = skip-body m optstring opts format in
      rw (← begins_with_lem m (skip m optstring) b':' (body opts) there (omega arith)) (
        match_option-act m argc argv bounds fuel (skip m optstring) optchar (body opts) there
          (omega arith) s' c cs ws shown char_ nz)

  -- where the character and the one behind it stand
  optchar-place :
      (s : Getopt) (el pos c : ℕ) (cs : List ℕ) (ws : List (List ℕ))
      → Inside m argc argv s el pos c cs ws
      → (argument m argv s.optind ≡ el)
        × ((el + extend pos) % 2 ^ 64 ≡ el + pos)
        × ((pos + 1) % 2 ^ 32 ≡ pos + 1)
        × ((el + extend (pos + 1)) % 2 ^ 64 ≡ el + pos + 1)
  optchar-place s el pos c cs ws i = (
    argument-load64 m argc argv bounds s.optind (omega (arith, i.counted)) ∙ i.element,
    rw (small_extend pos (omega (arith, i.short))) (omega (arith, i.fits)),
    omega (arith, i.short),
    rw (small_extend (pos + 1) (omega (arith, i.short))) (omega (arith, i.fits)),
  )

  -- the state behind the character at `pos`
  abbrev behind : Getopt → ℕ → ℕ → Getopt
  behind s el after =
      if m ((el + extend after) % 2 ^ 64) == 0
      then record (next s) { optpos = 0 }
      else record s { optpos = after }

  abbrev matches : ℕ → ℕ → Getopt → Option Outcome
  matches c optchar s = match_option fuel m argc argv (skip m optstring) c optchar s

  step_option-matches :
      (s s' : Getopt) (el pos c : ℕ) (cs : List ℕ) (ws : List (List ℕ))
      → Inside m argc argv s el pos c cs ws
      → (if s.optpos == 0 then 1 else s.optpos) ≡ pos
      → behind s el ((pos + 1) % 2 ^ 32) ≡ s'
      → step_option fuel m argc argv optstring s ≡ matches c (el + pos) s'
  unfolding step_option
  step_option-matches s s' el pos c cs ws i at t =
      let (e, p, n, f) = optchar-place s el pos c cs ws i in
      let stage = λ (x : ℕ) (q : ℕ).
        let y = (x + extend q) % 2 ^ 64 in matches (m y) y (behind s x ((q + 1) % 2 ^ 32)) in
      ap (λ x. stage x (if s.optpos == 0 then 1 else s.optpos)) e
      ∙ ap (λ q. stage el q) at
      ∙ ap (λ y. matches (m y) y (behind s el ((pos + 1) % 2 ^ 32))) p
      ∙ ap (λ y. matches y (el + pos) (behind s el ((pos + 1) % 2 ^ 32))) i.left.0
      ∙ ap (λ x. matches c (el + pos) x) t

  -- the last character of a word
  step_last :
      (s : Getopt) (el pos c : ℕ) (ws : List (List ℕ))
      → Inside m argc argv s el pos c [] ws
      → (if s.optpos == 0 then 1 else s.optpos) ≡ pos
      → Stepped s c [] ws
  step_last s el pos c ws i at =
      let (e, p, n, f) = optchar-place s el pos c [] ws i in
      let s' = record s { optind = s.optind + 1; optpos = 0 } in
      let (o, run, g) =
        matched s' (el + pos) c [] ws
          (record { between = refl; counted = i.counted; started = omega arith; words = i.words })
          i.left.0 i.left.1 in
      (
        o,
        step_option-matches s s' el pos c [] ws i at (
              rw n (
                rw f (
                  rw i.left.2
                    (rw (next_word argc argv bounds s.optind (omega (arith, i.counted))) refl))))
            ∙ run,
        g,
      )

  -- a character with others behind it
  step_within :
      (s : Getopt) (el pos c x : ℕ) (cs : List ℕ) (ws : List (List ℕ))
      → Inside m argc argv s el pos c (x ∷ cs) ws
      → (if s.optpos == 0 then 1 else s.optpos) ≡ pos
      → Stepped s c (x ∷ cs) ws
  step_within s el pos c x cs ws i at =
      let (e, p, n, f) = optchar-place s el pos c (x ∷ cs) ws i in
      let s' = record s { optpos = pos + 1 } in
      let more : (m (el + pos + 1) == 0) ≡ false = rw i.left.2.0 (ne→== x 0 i.left.2.1) in
      let (o, run, g) =
        matched s' (el + pos) c (x ∷ cs) ws
          (
            el,
            record {
              element = i.element;
              there = i.there;
              dash = i.dash;
              longer = i.longer;
              no_end = i.no_end;
              left = subst (λ y. CStr m y (x ∷ cs)) (omega arith) i.left.2;
              fits = omega (arith, i.fits);
              short = omega (arith, i.short);
              moving = omega arith;
              counted = i.counted;
              started = i.started;
              words = i.words;
            },
          )
          i.left.0 i.left.1 in
      (o, step_option-matches s s' el pos c (x ∷ cs) ws i at (rw n (rw f (rw more refl))) ∙ run, g)

  stepped :
      (s : Getopt) (el pos c : ℕ) (cs : List ℕ) (ws : List (List ℕ))
      → Inside m argc argv s el pos c cs ws
      → (if s.optpos == 0 then 1 else s.optpos) ≡ pos
      → Stepped s c cs ws
  stepped s el pos c [] ws i at = step_last s el pos c ws i at
  stepped s el pos c (x ∷ cs) ws i at = step_within s el pos c x cs ws i at

  -- what is left of a call once it has found the word at `el`
  abbrev pub at_word : Getopt → ℕ → Option Outcome
  at_word s el =
      if not (m el == b'-') && m optstring == b'-'
      then some (outcome (record (next s) { optarg = el }) 1 silent)
      else if not (m el == b'-')
      then some (outcome s minus_one silent)
      else if m (el + 1) == 0
      then some (outcome s minus_one silent)
      else if m (el + 1) == b'-' && m (el + 2) == 0
      then some (outcome (next s) minus_one silent)
      else step_option fuel m argc argv optstring s

  pub getopt-at_word :
      (s : Getopt) (el : ℕ)
      → 0 < s.optind
      → s.optind < argc
      → load64 m (argv + 8 * s.optind) ≡ el
      → el ≢ 0
      → getopt fuel m argc argv optstring s ≡ at_word s el
  unfolding getopt
  getopt-at_word s el h l e nz =
      let begun = ne→== s.optind 0 (omega (arith, h)) in
      let more : le_s32 argc s.optind ≡ false =
        le_s32_lem argc s.optind (omega arith) (omega (arith, l)) ∙ ground (arith, l) in
      rw begun (
        rw more (
          rw (argument-load64 m argc argv bounds s.optind (omega (arith, l)) ∙ e)
            (rw (ne→== el 0 nz) refl)))

  -- there is no word left
  pub getopt_over :
      (s : Getopt)
      → 0 < s.optind
      → argc ≤ s.optind
      → s.optind ≤ argc + 1
      → getopt fuel m argc argv optstring s ≡ some (outcome s minus_one silent)
  unfolding getopt
  getopt_over s h l u =
      let begun = ne→== s.optind 0 (omega (arith, h)) in
      let over : le_s32 argc s.optind ≡ true =
        le_s32_lem argc s.optind (omega arith) (omega (arith, u)) ∙ ground (arith, l) in
      rw begun (rw over refl)

  -- a word of options, from a place inside it
  pub Inside-word :
      (s : Getopt) (el pos c : ℕ) (cs : List ℕ) (ws : List (List ℕ))
      → Inside m argc argv s el pos c cs ws
      → (if s.optpos == 0 then 1 else s.optpos) ≡ pos
      → (o : Outcome) × (getopt fuel m argc argv optstring s ≡ some o)
        × Gives m argc argv s.optarg s.optopt s.opterr o (
            act
              (begins_with b':' (body opts))
              (not (s.opterr == 0))
              (kind_of c (body opts))
              c
              cs
              ws)
  Inside-word s el pos c cs ws i at =
      let (o, run, g) = stepped s el pos c cs ws i at in
      let longer = ne→== (m (el + 1)) 0 i.longer in
      let no_end : (m (el + 1) == b'-' && m (el + 2) == 0) ≡ false = ground (arith, i.no_end) in
      (
        o,
        getopt-at_word s el i.started (omega (arith, i.counted)) i.element i.there
            ∙ rw i.dash (rw longer (rw no_end run)),
        g,
      )
