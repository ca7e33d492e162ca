-- ===== src/Stdlib/Strtox/Digits.antt =====
-- The loop over the digits: first as a function of the list of characters, then its arithmetic.
use nolibc.Prelude.{
  ℕ, zero, suc, ◌+◌, ◌*◌, ◌/◌, ◌%◌, ◌^◌, ◌≤◌, ◌<◌, ◌≡◌, ◌≢◌, ◌⊎◌, inl, inr, refl, Bool, true, false,
  ◌||◌, some, List, [], ◌∷◌, ◌++◌, arith, ltb, length, All, ne→==, lt→leb, le→leb, Option, none,
  le→ltb, or_false,
}
use nolibc.Mem.{Mem, Bytes}
use nolibc.Stdlib.Strtox.{digit, scan, accumulate, digit_loop}
use nolibc.Stdlib.Strtox.Spec.{digit_value, digit_value_of, IsDigitOf, IsStop, value_in}

-- `val` and `overflow` after the characters `s`
abbrev pub run : ℕ → ℕ → ℕ → Bool → List ℕ → ℕ × Bool
run base limit v o [] = (v, o)
run base limit v o (c ∷ s) =
    let val = accumulate base v (digit_value c) in
    run base limit val (o || ltb limit val || ltb val v) s

digit_nonzero : (base c : ℕ) → IsDigitOf base c → c ≢ 0
unfolding digit
digit_nonzero base c (d, e, lt) z = ground arith

pub digit_loop-run :
    (fuel : ℕ) (m : Mem) (base limit p v c q : ℕ) (o : Bool) (s : List ℕ)
    → Bytes m p (s ++ c ∷ [])
    → All (IsDigitOf base) s
    → (c ≡ 0) ⊎ IsStop base c
    → length s < fuel
    → q ≡ p + length s
    → digit_loop fuel m base limit (scan p v o)
      ≡ some (scan q (run base limit v o s).0 (run base limit v o s).1)
unfolding digit_loop
digit_loop-run zero m base limit p v c q o s h d stop enough e = absurd (omega arith)
digit_loop-run (suc fuel) m base limit p v c q o [] h d (inl z) enough e = ground arith
digit_loop-run (suc fuel) m base limit p v c q o [] h d (inr stop) enough e =
    let e' : q ≡ p = omega arith in rw e' (at_stop (digit c) refl)
  where
    at_stop :
        (r : Option ℕ)
        → digit c ≡ r
        → digit_loop (suc fuel) m base limit (scan p v o) ≡ some (scan p v o)
    at_stop none f = rw (h.0, f) (ground arith)
    at_stop (some d) f = rw (h.0, f, le→leb base d (stop d f)) (ground arith)
digit_loop-run (suc fuel) m base limit p v c q o (x ∷ s) h d stop enough e =
    rw
      (
        h.0,
        ne→== x 0 (digit_nonzero base x d.0),
        d.0.1,
        lt→leb base d.0.0 d.0.2,
        ← digit_value_of x d.0.0 d.0.1,
      )
      (digit_loop-run fuel m base limit (p + 1) (accumulate base v (digit_value x)) c q _ s h.1 d.1
        stop (omega arith) (omega arith))

-- one round modulo `2 ^ 64`
wrap_round : (v t base d : ℕ) → v ≡ t % 2 ^ 64 → accumulate base v d ≡ (t * base + d) % 2 ^ 64
wrap_round v t base d e = omega (arith, split t (t / 2 ^ 64) v base (omega arith))
  where
    split : (t a v b : ℕ) → t ≡ 2 ^ 64 * a + v → t * b ≡ 2 ^ 64 * (a * b) + v * b
    split t a v b f = rw f (omega arith)

-- the value read is the true one modulo `2 ^ 64`
pub run-mod :
    (base limit v t : ℕ) (o : Bool) (s : List ℕ)
    → v ≡ t % 2 ^ 64
    → (run base limit v o s).0 ≡ value_in base t s % 2 ^ 64
run-mod base limit v t o [] e = e
run-mod base limit v t o (c ∷ s) e =
    run-mod base limit (accumulate base v (digit_value c)) (t * base + digit_value c)
      (o
        || ltb limit (accumulate base v (digit_value c))
        || ltb (accumulate base v (digit_value c)) v)
      s (wrap_round v t base (digit_value c) e)

grow : (t base d : ℕ) → 1 ≤ base → t ≤ t * base + d
grow t zero d h = absurd (omega arith)
grow t (suc b) d h = omega arith

pub le-value_in : (base t : ℕ) (s : List ℕ) → 1 ≤ base → t ≤ value_in base t s
le-value_in base t [] h = omega arith
le-value_in base t (c ∷ s) h =
    omega (arith, grow t base (digit_value c) h, le-value_in base (t * base + digit_value c) s h)

-- Nothing is reported while the true value fits.
pub run-fits :
    (base limit v : ℕ) (o : Bool) (s : List ℕ)
    → 1 ≤ base
    → limit < 2 ^ 64
    → value_in base v s ≤ limit
    → run base limit v o s ≡ (value_in base v s, o)
run-fits base limit v o [] b lt fits = refl
run-fits base limit v o (c ∷ s) b lt fits =
    let next : ℕ = v * base + digit_value c in
    let small : next ≤ limit = omega (arith, le-value_in base next s b) in
    let val : accumulate base v (digit_value c) ≡ next = omega arith in
    rw (val, le→ltb limit next small, le→ltb next v (grow v base (digit_value c) b), or_false o)
      (run-fits base limit next o s b lt fits)

-- What is reported as too large is too large.
pub run_sound :
    (base limit v t : ℕ) (o : Bool) (s : List ℕ)
    → 1 ≤ base
    → limit < 2 ^ 64
    → v ≡ t % 2 ^ 64
    → (o ≡ false) ⊎ (limit < t)
    → (run base limit v o s).1 ≡ true
    → limit < value_in base t s
run_sound base limit v t o [] b lt e (inl clear) raised = cc
run_sound base limit v t o [] b lt e (inr over) raised = over
run_sound base limit v t o (c ∷ s) b lt e so_far raised =
    run_sound base limit (accumulate base v (digit_value c)) (t * base + digit_value c)
      (o
        || ltb limit (accumulate base v (digit_value c))
        || ltb (accumulate base v (digit_value c)) v)
      s b lt (wrap_round v t base (digit_value c) e)
      (ground (arith, wrap_round v t base (digit_value c) e, grow t base (digit_value c) b)) raised
