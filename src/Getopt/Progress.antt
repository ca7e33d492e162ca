-- ===== src/Getopt/Progress.antt =====
-- The loop of a program over `getopt`, which calls it until it returns -1, ends.
use nolibc.Prelude.{
  ℕ, zero, suc, ◌+◌, ◌≤◌, ◌<◌, ◌≡◌, ◌≢◌, ◌∙◌, ◌⊎◌, inl, inr, refl, Bool, not, some, List, [], ◌∷◌,
  ◌==◌, arith, length, Bool-cases, ==→eq, ==→ne,
}
use mathlib.Core.Path.{subst}
use nolibc.Mem.{Mem, CStr}
use nolibc.Getopt.{Getopt, Outcome, minus_one, getopt}
use nolibc.Getopt.Machine.{
  Kind, unknown, flag, required, optional, View, before, past, Answer, act, operand, front,
  next_answer, kind_of,
}
use nolibc.Getopt.CommandLine.{Shows, Bounded}
use nolibc.Getopt.Calls.{begins_with, body}
use nolibc.Getopt.Refinement.{getopt-Gives}

-- the calls that the rest of the command line can take
abbrev pub words_size : List (List ℕ) → ℕ
words_size [] = 0
words_size (w ∷ ws) = suc (length w) + words_size ws

abbrev pub size : View → ℕ
size (before cs ws) = length cs + words_size ws
size past = 0

-- an answer that is not the last one moves on
abbrev MovesFrom : ℕ → Answer → Type 0
MovesFrom n a = (a.result ≡ minus_one) ⊎ (size a.view < n)

module _ (colon noisy : Bool) where
  size-act :
      (k : Kind) (c : ℕ) (cs : List ℕ) (ws : List (List ℕ))
      → size (act colon noisy k c cs ws).view ≤ size (before cs ws)
  size-act unknown c cs ws = omega arith
  size-act flag c cs ws = omega arith
  size-act required c (d ∷ cs) ws = omega arith
  size-act required c [] (w ∷ ws) = omega arith
  size-act required c [] [] = omega arith
  size-act optional c (d ∷ cs) ws = omega arith
  size-act optional c [] ws = omega arith

  module _ (in_order : Bool) (opts : List ℕ) where
    operand-MovesFrom :
        (w : List ℕ) (ws : List (List ℕ))
        → MovesFrom (words_size (w ∷ ws)) (operand colon noisy in_order opts w ws)
    operand-MovesFrom w ws = elim (Bool-cases in_order) [
      | inl y ↦ rw y (inr (omega arith))
      | inr n ↦ rw n (inl refl)
    ]

    front-MovesFrom :
        (w : List ℕ) (ws : List (List ℕ))
        → MovesFrom (words_size (w ∷ ws)) (front colon noisy in_order opts w ws)
    front-MovesFrom [] ws = operand-MovesFrom [] ws
    front-MovesFrom (a ∷ []) ws = elim (Bool-cases (a == b'-')) [
      | inl y ↦ rw y (inl refl)
      | inr n ↦ rw n (operand-MovesFrom (a ∷ []) ws)
    ]
    front-MovesFrom (a ∷ c ∷ []) ws = elim (Bool-cases (a == b'-')) [
      | inl y ↦ rw y (elim (Bool-cases (c == b'-')) [
        | inl y' ↦ rw y' (inl refl)
        | inr n' ↦ rw n' (inr (omega (arith, size-act (kind_of c opts) c [] ws)))
      ])
      | inr n ↦ rw n (operand-MovesFrom (a ∷ c ∷ []) ws)
    ]
    front-MovesFrom (a ∷ c ∷ d ∷ cs) ws = elim (Bool-cases (a == b'-')) [
      | inl y ↦ rw y (inr (omega (arith, size-act (kind_of c opts) c (d ∷ cs) ws)))
      | inr n ↦ rw n (operand-MovesFrom (a ∷ c ∷ d ∷ cs) ws)
    ]

    next_answer-MovesFrom :
        (v : View) → MovesFrom (size v) (next_answer colon noisy in_order opts v)
    next_answer-MovesFrom (before (c ∷ cs) ws) =
        inr (omega (arith, size-act (kind_of c opts) c cs ws))
    next_answer-MovesFrom (before [] []) = inl refl
    next_answer-MovesFrom (before [] (w ∷ ws)) =
        subst (λ n. MovesFrom n (front colon noisy in_order opts w ws)) (omega arith)
          (front-MovesFrom w ws)
    next_answer-MovesFrom past = inl refl

module _ (m : Mem) (argc argv fuel optstring : ℕ) where
  -- from the state `s`, the call after `n` others is the first to return -1
  pub data EndsAfter : ℕ → Getopt → Type 0 where
    stops :
        {s : Getopt} (o : Outcome)
        → getopt fuel m argc argv optstring s ≡ some o
        → o.result ≡ minus_one
        → EndsAfter 0 s
    goes_on :
        {s : Getopt} (n : ℕ) (o : Outcome)
        → getopt fuel m argc argv optstring s ≡ some o
        → o.result ≢ minus_one
        → EndsAfter n o.state
        → EndsAfter (suc n) s

module _ (m : Mem) (argc argv fuel optstring : ℕ) (opts : List ℕ) (bounds : Bounded argc argv)
    (format : CStr m optstring opts) (enough : length opts < fuel) where
  abbrev Ending : Getopt → View → Type 0
  Ending s v = (n : ℕ) × EndsAfter m argc argv fuel optstring n s × (n ≤ size v)

  -- one call, where what it moves to ends
  ends_if :
      (s : Getopt) (v : View)
      → Shows m argc argv s v
      → ((s' : Getopt) (v' : View) → Shows m argc argv s' v' → size v' < size v → Ending s' v')
      → Ending s v
  ends_if s v shown next =
      let (o, run, g) =
        getopt-Gives m argc argv fuel optstring opts s v bounds format enough shown in
      let answer =
        next_answer (begins_with b':' (body opts)) (not (s.opterr == 0)) (begins_with b'-' opts)
          (body opts) v in
      let moves : MovesFrom (size v) answer =
        next_answer-MovesFrom (begins_with b':' (body opts)) (not (s.opterr == 0))
          (begins_with b'-' opts) (body opts) v in
      elim (Bool-cases (o.result == minus_one)) [
        | inl y ↦ (0, stops o run (==→eq o.result minus_one y), omega arith)
        | inr n ↦ elim moves [
          | inl e ↦ absurd (==→ne o.result minus_one n (g.same_result ∙ e))
          | inr lt ↦
              let (k, ends, le) = next o.state answer.view g.shown lt in
              (suc k, goes_on k o run (==→ne o.result minus_one n) ends, omega arith)
        ]
      ]

  ends_within : (k : ℕ) (s : Getopt) (v : View) → Shows m argc argv s v → size v ≤ k → Ending s v
  ends_within zero s v shown le = ends_if s v shown (λ s' v' h lt. absurd (omega arith))
  ends_within (suc k) s v shown le =
      ends_if s v shown (λ s' v' h lt. ends_within k s' v' h (omega arith))

-- Where the array of arguments lies in the address space, has fewer than 2 ^ 31 - 1 words, none at
-- a null pointer and each shorter than 2 ^ 31 bytes, and given more fuel than the option string has
-- bytes: a program that calls getopt until it returns -1 makes at most one call more than the words
-- of the command line that are left and their characters.
pub getopt-EndsAfter :
    (m : Mem) (argc argv fuel optstring : ℕ) (opts : List ℕ) (s : Getopt) (v : View)
    → Bounded argc argv
    → CStr m optstring opts
    → length opts < fuel
    → Shows m argc argv s v
    → (n : ℕ) × EndsAfter m argc argv fuel optstring n s × (n ≤ size v)
getopt-EndsAfter m argc argv fuel optstring opts s v bounds format enough shown =
    ends_within m argc argv fuel optstring opts bounds format enough (size v) s v shown
      (omega arith)
