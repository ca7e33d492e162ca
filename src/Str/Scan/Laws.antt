-- ===== src/Str/Scan/Laws.antt =====
-- What the scans of one string find.
use nolibc.Prelude.{
  ℕ, zero, suc, ◌+◌, ◌%◌, ◌<◌, ◌≡◌, ◌≢◌, ap, ◌∙◌, some, List, [], ◌∷◌, ◌++◌, arith, ◌==◌,
  if◌then◌else◌, length, All,
}
use Prim.Native.Nat.{min}
use nolibc.Mem.{Mem, CStr}
use nolibc.Str.Scan.{
  null, strlen_loop, strlen, strnlen_loop, strnlen, strchr, strrchr_loop, strrchr,
}

strlen_loop-length :
    (fuel : ℕ) (m : Mem) (p k q : ℕ) (s : List ℕ)
    → q ≡ p + k
    → CStr m q s
    → length s < fuel
    → strlen_loop fuel m p k ≡ some (k + length s)
unfolding strlen_loop
strlen_loop-length zero m p k q s e h lt = absurd (omega arith)
strlen_loop-length (suc fuel) m p k q [] e h lt = ground arith
strlen_loop-length (suc fuel) m p k q (c ∷ s) e (hc, nz, h) lt =
    ground (arith, strlen_loop-length fuel m p (k + 1) (q + 1) s (omega arith) h)

-- `strlen` returns the number of bytes in front of the terminator.
pub strlen-length :
    (fuel : ℕ) (m : Mem) (p : ℕ) (s : List ℕ)
    → CStr m p s
    → length s < fuel
    → strlen fuel m p ≡ some (length s)
unfolding strlen
strlen-length fuel m p s h lt =
    strlen_loop-length fuel m p 0 p s (omega arith) h lt ∙ ap some (omega arith)

strnlen_loop-min :
    (n : ℕ) (m : Mem) (p k q : ℕ) (s : List ℕ)
    → q ≡ p + k
    → CStr m q s
    → strnlen_loop n m p k ≡ k + min n (length s)
unfolding strnlen_loop
strnlen_loop-min zero m p k q s e h = omega arith
strnlen_loop-min (suc n) m p k q [] e h = ground arith
strnlen_loop-min (suc n) m p k q (c ∷ s) e (hc, nz, h) =
    ground (arith, strnlen_loop-min n m p (k + 1) (q + 1) s (omega arith) h)

-- `strnlen` returns the length, or the limit where that is smaller.
pub strnlen-min :
    (m : Mem) (p : ℕ) (s : List ℕ) (maxlen : ℕ)
    → CStr m p s
    → strnlen m p maxlen ≡ min maxlen (length s)
unfolding strnlen
strnlen-min m p s maxlen h = strnlen_loop-min maxlen m p 0 p s (omega arith) h ∙ omega arith

module _ (m : Mem) (c : ℕ) where
  -- Where a byte stands first in a string, strchr returns its address, given enough fuel.
  pub strchr-first :
      (fuel p : ℕ) (a b : List ℕ)
      → All (λ d. d ≢ c % 256) a
      → CStr m p (a ++ c % 256 ∷ b)
      → length a < fuel
      → strchr fuel m p c ≡ some (p + length a)
  unfolding strchr
  strchr-first zero p a b out h lt = absurd (omega arith)
  strchr-first (suc fuel) p [] b out h lt = ground arith
  strchr-first (suc fuel) p (d ∷ a) b out h lt =
      ground (arith, strchr-first fuel (p + 1) a b out.1 h.2)

  -- Where a byte does not stand in the string, `strchr` returns NULL; also for the terminator.
  pub strchr-missing :
      (fuel p : ℕ) (s : List ℕ)
      → All (λ d. d ≢ c % 256) s
      → CStr m p s
      → length s < fuel
      → strchr fuel m p c ≡ some null
  unfolding strchr
  strchr-missing zero p s out h lt = absurd (omega arith)
  strchr-missing (suc fuel) p [] out h lt = ground arith
  strchr-missing (suc fuel) p (d ∷ s) out h lt =
      ground (arith, strchr-missing fuel (p + 1) s out.1 h.2)

  strrchr_loop-missing :
      (fuel p ret : ℕ) (s : List ℕ)
      → All (λ d. d ≢ c % 256) s
      → CStr m p s
      → length s < fuel
      → strrchr_loop fuel m p c ret ≡ some ret
  unfolding strrchr_loop
  strrchr_loop-missing zero p ret s out h lt = absurd (omega arith)
  strrchr_loop-missing (suc fuel) p ret [] out h lt = ground arith
  strrchr_loop-missing (suc fuel) p ret (d ∷ s) out h lt =
      ground (arith, strrchr_loop-missing fuel (p + 1) ret s out.1 h.2)

  strrchr_loop-last :
      (fuel p ret : ℕ) (a b : List ℕ)
      → All (λ d. d ≢ c % 256) b
      → CStr m p (a ++ c % 256 ∷ b)
      → length a + length b + 1 < fuel
      → strrchr_loop fuel m p c ret ≡ some (p + length a)
  unfolding strrchr_loop
  strrchr_loop-last zero p ret a b out h lt = absurd (omega arith)
  strrchr_loop-last (suc fuel) p ret [] b out h lt =
      ground (arith, strrchr_loop-missing fuel (p + 1) p b out h.2)
  strrchr_loop-last (suc fuel) p ret (d ∷ a) b out h lt =
      ground (arith, strrchr_loop-last fuel (p + 1) (if m p == c % 256 then p else ret) a b out h.2)

  -- Where a byte stands last in a string, strrchr returns its address, given enough fuel.
  pub strrchr-last :
      (fuel p : ℕ) (a b : List ℕ)
      → All (λ d. d ≢ c % 256) b
      → CStr m p (a ++ c % 256 ∷ b)
      → length a + length b + 1 < fuel
      → strrchr fuel m p c ≡ some (p + length a)
  unfolding strrchr
  strrchr-last fuel p a b = strrchr_loop-last fuel p null a b

  -- Where a byte does not stand in the string, `strrchr` returns NULL.
  pub strrchr-missing :
      (fuel p : ℕ) (s : List ℕ)
      → All (λ d. d ≢ c % 256) s
      → CStr m p s
      → length s < fuel
      → strrchr fuel m p c ≡ some null
  unfolding strrchr
  strrchr-missing fuel p s = strrchr_loop-missing fuel p null s
