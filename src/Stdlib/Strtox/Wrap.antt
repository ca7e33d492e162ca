-- ===== src/Stdlib/Strtox/Wrap.antt =====
-- The overflow test of `__strtox` compares the new value with the old one. That does not notice every
-- wrap of the multiplication.
use nolibc.Prelude.{
  ℕ, ◌+◌, ◌*◌, ◌^◌, ◌≤◌, ◌<◌, ◌∙◌, ◌≡◌, ◌⊎◌, refl, Bool, false, ◌||◌, some, List, [], ◌∷◌, ◌++◌,
  arith, ltb, length, length-append, All, le→ltb,
}
use nolibc.Mem.{Mem, Bytes}
use nolibc.Stdlib.Strtox.{finish, accumulate, ulong_max, strtoull}
use nolibc.Stdlib.Strtox.Spec.{digit_value, IsDigitOf, IsStop, value_in}
use nolibc.Stdlib.Strtox.Digits.{run, run-fits}
use nolibc.Stdlib.Strtox.Results.{IsPlainBase, strtox-unsigned}

run-append :
    (base limit v : ℕ) (o : Bool) (s t : List ℕ)
    → run base limit v o (s ++ t)
      ≡ run base limit (run base limit v o s).0 (run base limit v o s).1 t
run-append base limit v o [] t = refl
run-append base limit v o (c ∷ s) t =
    run-append base limit (accumulate base v (digit_value c)) _ s t

-- a value that still fits, and a digit after which the wrapped value is not below it
unnoticed :
    (base v d w : ℕ)
    → accumulate base v d ≡ w
    → v ≤ w
    → w < 2 ^ 64
    → (false || ltb ulong_max (accumulate base v d) || ltb (accumulate base v d) v) ≡ false
unnoticed base v d w e le lt = rw (e, le→ltb ulong_max w (omega arith), le→ltb w v le)

-- In a base from 1 to 36 other than 16, for digits, up to a byte that is no digit, that without
-- their last spell a number v within ULLONG_MAX, and a last digit that takes the number past
-- ULLONG_MAX but leaves the value modulo 2 ^ 64 not below v, strtoull, given enough fuel, returns
-- the wrapped value, points endptr at that byte and leaves errno alone.
pub strtoull_wraps :
    (fuel : ℕ) (m : Mem) (errno p base c x y v : ℕ) (s : List ℕ)
    → IsPlainBase base
    → Bytes m p (x ∷ (s ++ y ∷ []) ++ c ∷ [])
    → All (IsDigitOf base) (x ∷ (s ++ y ∷ []))
    → (c ≡ 0) ⊎ IsStop base c
    → length s + 2 < fuel
    → v ≡ value_in base 0 (x ∷ s)
    → v ≤ ulong_max
    → ulong_max < v * base + digit_value y
    → v ≤ accumulate base v (digit_value y)
    → strtoull fuel m errno p base
      ≡ some (record {
        value = accumulate base v (digit_value y);
        endptr = p + (length s + 2);
        errno = errno;
      })
unfolding strtoull finish
strtoull_wraps fuel m errno p base c x y v s plain h d stop enough e fits over hidden =
    strtox-unsigned fuel m errno p base 0 ulong_max c x [] (s ++ y ∷ []) plain h tt d stop
      (omega (arith, length-append s (y ∷ [])))
    ∙ rw
        (
          run-append base ulong_max 0 false (x ∷ s) (y ∷ []),
          run-fits base ulong_max 0 false (x ∷ s) plain.0 (omega arith) (omega arith),
          ← e,
          unnoticed base v (digit_value y) _ refl hidden (omega arith),
        )
        (ground (arith, length-append s (y ∷ [])))
