-- ===== src/Str/Compare/Laws.antt =====
-- `strcmp` and `strncmp` compare byte strings in the dictionary order of their bytes.
use Prim.Native.Nat.{min}
use nolibc.Prelude.{
  ℕ, zero, suc, ◌+◌, ◌<◌, ◌≡◌, ◌≢◌, refl, ◌↔◌, some, List, [], ◌∷◌, arith, ◌==◌, if◌then◌else◌,
  length, take, All,
}
use nolibc.Prelude.Int.{ℤ, pos, sub_ℕ}
use nolibc.Mem.{Mem, CStr}
use nolibc.Str.Compare.{strcmp, strncmp_loop, strncmp}

-- the difference at the first place where two strings differ, the end counting as a zero
abbrev pub difference : List ℕ → List ℕ → ℤ
difference [] [] = pos 0
difference [] (y ∷ ys) = sub_ℕ 0 y
difference (x ∷ xs) [] = sub_ℕ x 0
difference (x ∷ xs) (y ∷ ys) = if x == y then difference xs ys else sub_ℕ x y

-- `strcmp` returns the difference at the first place where the strings differ.
pub strcmp-difference :
    (fuel : ℕ) (m : Mem) (a b : ℕ) (s t : List ℕ)
    → CStr m a s
    → CStr m b t
    → min (length s) (length t) < fuel
    → strcmp fuel m a b ≡ some (difference s t)
unfolding strcmp
strcmp-difference zero m a b s t hs ht lt = absurd (omega arith)
strcmp-difference (suc fuel) m a b [] [] hs ht lt = ground arith
strcmp-difference (suc fuel) m a b [] (y ∷ t) hs ht lt = ground arith
strcmp-difference (suc fuel) m a b (x ∷ s) [] hs ht lt = ground arith
strcmp-difference (suc fuel) m a b (x ∷ s) (y ∷ t) hs ht lt =
    ground (arith, strcmp-difference fuel m (a + 1) (b + 1) s t hs.2 ht.2)

strncmp_loop-difference :
    (n : ℕ) (m : Mem) (a b : ℕ) (s t : List ℕ) (d : ℤ)
    → CStr m a s
    → CStr m b t
    → strncmp_loop (suc n) m a b d ≡ difference (take (suc n) s) (take (suc n) t)
unfolding strncmp_loop
strncmp_loop-difference zero m a b [] [] d hs ht = ground arith
strncmp_loop-difference zero m a b [] (y ∷ t) d hs ht = ground arith
strncmp_loop-difference zero m a b (x ∷ s) [] d hs ht = ground arith
strncmp_loop-difference zero m a b (x ∷ s) (y ∷ t) d hs ht = ground arith
strncmp_loop-difference (suc n) m a b [] [] d hs ht = ground arith
strncmp_loop-difference (suc n) m a b [] (y ∷ t) d hs ht = ground arith
strncmp_loop-difference (suc n) m a b (x ∷ s) [] d hs ht = ground arith
strncmp_loop-difference (suc n) m a b (x ∷ s) (y ∷ t) d hs ht =
    ground (arith, strncmp_loop-difference n m (a + 1) (b + 1) s t (sub_ℕ (m a) (m b)) hs.2 ht.2)

-- strncmp of two strings returns the difference at the first place where their first size bytes
-- differ, the end counting as a zero byte, and 0 where they do not.
pub strncmp-difference :
    (m : Mem) (a b : ℕ) (s t : List ℕ) (size : ℕ)
    → CStr m a s
    → CStr m b t
    → strncmp m a b size ≡ difference (take size s) (take size t)
unfolding strncmp strncmp_loop
strncmp-difference m a b s t zero hs ht = refl
strncmp-difference m a b s t (suc n) hs ht = strncmp_loop-difference n m a b s t (pos 0) hs ht

abbrev pub NonZero : List ℕ → Type 0
NonZero = All (λ c. c ≢ 0)

pub NonZero-CStr : (m : Mem) (p : ℕ) (s : List ℕ) → CStr m p s → NonZero s
NonZero-CStr m p [] h = tt
NonZero-CStr m p (c ∷ s) h = (h.1, NonZero-CStr m (p + 1) s h.2)

pub difference_self : (s : List ℕ) → difference s s ≡ pos 0
difference_self [] = refl
difference_self (x ∷ s) = ground (arith, difference_self s)

pub eq_of_difference : (s t : List ℕ) → NonZero s → NonZero t → difference s t ≡ pos 0 → s ≡ t
eq_of_difference [] [] hs ht e = refl
eq_of_difference [] (y ∷ t) hs ht e = ground arith
eq_of_difference (x ∷ s) [] hs ht e = ground arith
eq_of_difference (x ∷ s) (y ∷ t) hs ht e = ground (arith, eq_of_difference s t hs.1 ht.1)

-- Given enough fuel, strcmp of two strings returns 0 exactly when they are equal.
pub strcmp-zero_iff :
    (fuel : ℕ) (m : Mem) (a b : ℕ) (s t : List ℕ)
    → CStr m a s
    → CStr m b t
    → min (length s) (length t) < fuel
    → (strcmp fuel m a b ≡ some (pos 0)) ↔ (s ≡ t)
strcmp-zero_iff fuel m a b s t hs ht lt = (
  λ e.
      eq_of_difference s t (NonZero-CStr m a s hs) (NonZero-CStr m b t ht)
        (ground (arith, strcmp-difference fuel m a b s t hs ht lt)),
  λ e. rw (strcmp-difference fuel m a b s t hs ht lt, ← e, difference_self),
)
