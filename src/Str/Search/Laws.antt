-- ===== src/Str/Search/Laws.antt =====
-- `strstr` finds the first occurrence of a needle that is not empty.
use nolibc.Prelude.{
  ℕ, zero, suc, ◌+◌, ◌-◌, ◌≤◌, ◌<◌, ◌≡◌, ◌≢◌, refl, ◌∙◌, ap, some, List, [], ◌∷◌, ◌++◌, arith,
  ne→==, length, length-append, length-take, take, drop,
}
use nolibc.Prelude.Int.{ℤ, pos, negsuc}
use nolibc.Mem.{Mem, Bytes, CStr}
use nolibc.Mem.Laws.{Bytes-take, Bytes-CStr, take-append}
use nolibc.Str.Scan.{null}
use nolibc.Str.Scan.Laws.{strlen-length}
use nolibc.Str.Block.Compare.{memcmp-zero_iff}
use nolibc.Str.Search.{is_zero, strstr_loop, strstr}

is_zero_ne : (d : ℤ) (a b : ℕ) → d ≢ pos 0 → is_zero d a b ≡ b
is_zero_ne (pos zero) a b ne = absurd (ne refl)
is_zero_ne (pos (suc n)) a b ne = refl
is_zero_ne (negsuc n) a b ne = refl

module _ (m : Mem) (needle : ℕ) (t : List ℕ) (ht : Bytes m needle t) where
  -- one round at a place where the needle does not stand
  step_miss :
      (n h : ℕ) (s : List ℕ)
      → CStr m h s
      → length t ≤ length s
      → take (length t) s ≢ t
      → strstr_loop (suc n) m h needle (length t) ≡ strstr_loop n m (h + 1) needle (length t)
  unfolding strstr_loop
  step_miss n h s hs le ne = is_zero_ne _ h _ (λ e. ne (
      (memcmp-zero_iff m h needle (length t) (take (length t) s) t
          (Bytes-take m h (length t) s (Bytes-CStr m h s hs)) ht
          (omega (arith, length-take (length t) s)) refl).0
        e))

  step_hit :
      (n h : ℕ) (b : List ℕ) → CStr m h (t ++ b) → strstr_loop (suc n) m h needle (length t) ≡ h
  unfolding strstr_loop
  step_hit n h b hs = rw (
      (memcmp-zero_iff m h needle (length t) t t
          (rw (take-append t b) at
            (Bytes-take m h (length t) (t ++ b) (Bytes-CStr m h (t ++ b) hs)))
          ht refl refl).1
        refl)

  strstr_loop-first :
      (n h : ℕ) (a b : List ℕ)
      → CStr m h (a ++ (t ++ b))
      → n ≡ length a + length b + 1
      → ((i : ℕ) → i < length a → take (length t) (drop i (a ++ (t ++ b))) ≢ t)
      → strstr_loop n m h needle (length t) ≡ h + length a
  strstr_loop-first zero h a b hs e first = absurd (omega arith)
  strstr_loop-first (suc n) h [] b hs e first = step_hit n h b hs ∙ omega arith
  strstr_loop-first (suc n) h (x ∷ a) b hs e first =
      step_miss n h (x ∷ a ++ (t ++ b)) hs
        (omega (arith, length-append a (t ++ b), length-append t b)) (first 0 (omega arith))
      ∙ strstr_loop-first n (h + 1) a b hs.2 (omega arith) (λ i lt. first (suc i) (omega arith))
      ∙ omega arith

  strstr_loop-missing :
      (n h : ℕ) (s : List ℕ)
      → CStr m h s
      → 0 < length t
      → n ≡ length s + 1 - length t
      → ((i : ℕ) → take (length t) (drop i s) ≢ t)
      → strstr_loop n m h needle (length t) ≡ null
  strstr_loop-missing zero h s hs pos_t e never = unfold strstr_loop in refl
  strstr_loop-missing (suc n) h [] hs pos_t e never = absurd (omega arith)
  strstr_loop-missing (suc n) h (x ∷ s) hs pos_t e never =
      step_miss n h (x ∷ s) hs (omega arith) (never 0)
      ∙ strstr_loop-missing n (h + 1) s hs.2 pos_t (omega arith) (λ i. never (suc i))

module _ (fuel : ℕ) (m : Mem) (haystack needle : ℕ) where
  -- Where the haystack is a ++ t ++ b and the needle t, not empty, stands at no place before the
  -- end of a, strstr returns the address behind a, given enough fuel.
  pub strstr-first :
      (a t b : List ℕ)
      → CStr m haystack (a ++ (t ++ b))
      → CStr m needle t
      → 0 < length t
      → ((i : ℕ) → i < length a → take (length t) (drop i (a ++ (t ++ b))) ≢ t)
      → length a + length t + length b < fuel
      → strstr fuel m haystack needle ≡ some (haystack + length a)
  unfolding strstr
  strstr-first a t b hs ht pos_t first lt =
      let all : length (a ++ (t ++ b)) ≡ length a + length t + length b =
        omega (arith, length-append a (t ++ b), length-append t b) in
      rw
        (
          strlen-length fuel m needle t ht (omega arith),
          ne→== (length t) 0 (omega arith),
          strlen-length fuel m haystack (a ++ (t ++ b)) hs (omega arith),
        )
        (ap some (
          strstr_loop-first m needle t (Bytes-CStr m needle t ht) _ haystack a b hs (omega arith)
            first))

  -- Where the needle is not empty and stands nowhere in the haystack, strstr returns NULL, given
  -- enough fuel.
  pub strstr-missing :
      (s t : List ℕ)
      → CStr m haystack s
      → CStr m needle t
      → 0 < length t
      → ((i : ℕ) → take (length t) (drop i s) ≢ t)
      → length s < fuel
      → length t < fuel
      → strstr fuel m haystack needle ≡ some null
  unfolding strstr
  strstr-missing s t hs ht pos_t never ls lt =
      rw
        (
          strlen-length fuel m needle t ht lt,
          ne→== (length t) 0 (omega arith),
          strlen-length fuel m haystack s hs ls,
        )
        (ap some (
          strstr_loop-missing m needle t (Bytes-CStr m needle t ht) _ haystack s hs pos_t refl
            never))

  -- For an empty needle `strstr` returns NULL, whatever the haystack.
  pub strstr-empty : CStr m needle [] → 0 < fuel → strstr fuel m haystack needle ≡ some null
  unfolding strstr
  strstr-empty ht lt = rw (strlen-length fuel m needle [] ht lt)
