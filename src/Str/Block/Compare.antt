-- ===== src/Str/Block/Compare.antt =====
-- `memcmp` against the comparison of byte lists.
use nolibc.Prelude.{ℕ, zero, suc, ◌+◌, ◌≡◌, refl, ◌↔◌, List, [], ◌∷◌, arith, length}
use nolibc.Prelude.Int.{pos}
use nolibc.Mem.{Mem, Bytes}
use nolibc.Str.Block.{memcmp_loop, memcmp}
use nolibc.Str.Compare.Laws.{difference, difference_self}

memcmp_loop-difference :
    (n : ℕ) (m : Mem) (p q k a b : ℕ) (s t : List ℕ)
    → a ≡ p + k
    → b ≡ q + k
    → Bytes m a s
    → Bytes m b t
    → length s ≡ n
    → length t ≡ n
    → memcmp_loop n m p q k ≡ difference s t
unfolding memcmp_loop
memcmp_loop-difference zero m p q k a b [] [] ea eb hs ht es et = refl
memcmp_loop-difference zero m p q k a b [] (y ∷ t) ea eb hs ht es et = absurd (omega arith)
memcmp_loop-difference zero m p q k a b (x ∷ s) t ea eb hs ht es et = absurd (omega arith)
memcmp_loop-difference (suc n) m p q k a b [] t ea eb hs ht es et = absurd (omega arith)
memcmp_loop-difference (suc n) m p q k a b (x ∷ s) [] ea eb hs ht es et = absurd (omega arith)
memcmp_loop-difference (suc n) m p q k a b (x ∷ s) (y ∷ t) ea eb hs ht es et = rw (
  ← ea,
  ← eb,
  hs.0,
  ht.0,
  memcmp_loop-difference n m p q (k + 1) (a + 1) (b + 1) s t (omega arith) (omega arith) hs.1 ht.1
      (omega arith) (omega arith),
)

-- `memcmp` returns the difference at the first place where the two areas differ, and 0 if none does.
pub memcmp-difference :
    (m : Mem) (p q n : ℕ) (s t : List ℕ)
    → Bytes m p s
    → Bytes m q t
    → length s ≡ n
    → length t ≡ n
    → memcmp m p q n ≡ difference s t
unfolding memcmp
memcmp-difference m p q n s t = memcmp_loop-difference n m p q 0 p q s t (omega arith) (omega arith)

eq_of_difference-length : (s t : List ℕ) → length s ≡ length t → difference s t ≡ pos 0 → s ≡ t
eq_of_difference-length [] [] e h = refl
eq_of_difference-length [] (y ∷ t) e h = absurd (omega arith)
eq_of_difference-length (x ∷ s) [] e h = absurd (omega arith)
eq_of_difference-length (x ∷ s) (y ∷ t) e h = ground (arith, eq_of_difference-length s t)

-- memcmp of two areas of n bytes returns 0 exactly when they hold the same bytes.
pub memcmp-zero_iff :
    (m : Mem) (p q n : ℕ) (s t : List ℕ)
    → Bytes m p s
    → Bytes m q t
    → length s ≡ n
    → length t ≡ n
    → (memcmp m p q n ≡ pos 0) ↔ (s ≡ t)
memcmp-zero_iff m p q n s t hs ht es et = (
  λ e.
      eq_of_difference-length s t (omega arith)
        (ground (arith, memcmp-difference m p q n s t hs ht es et)),
  λ e. rw (memcmp-difference m p q n s t hs ht es et, ← e, difference_self),
)
