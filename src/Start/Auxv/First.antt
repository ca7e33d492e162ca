-- ===== src/Start/Auxv/First.antt =====
-- `getauxval` finds the first entry of a type.
use nolibc.Prelude.{
  ℕ, zero, suc, ◌+◌, ◌<◌, ◌≡◌, ◌≢◌, refl, some, List, [], ◌∷◌, ◌++◌, arith, ◌==◌, ne→==,
  if◌then◌else◌, length, All,
}
use nolibc.Mem.{Mem}
use nolibc.Mem.Words.Laws.{Words}
use nolibc.Start.Auxv.{getauxval, auxv_loop}

-- the words of a vector, without the two zeros at its end
abbrev pub flat : List (ℕ × ℕ) → List ℕ
flat [] = []
flat ((t, v) ∷ pairs) = t ∷ v ∷ flat pairs

-- the vector, with the zeros
abbrev pub aux_words : List (ℕ × ℕ) → List ℕ
aux_words pairs = flat pairs ++ (0 ∷ 0 ∷ [])

-- the value of the first entry of a type, or 0
abbrev pub first_value : ℕ → List (ℕ × ℕ) → ℕ
first_value type_ [] = 0
first_value type_ ((t, v) ∷ pairs) =
    let rest = first_value type_ pairs in if t == type_ then v else rest

auxv_loop-first :
    (pairs : List (ℕ × ℕ)) (fuel : ℕ) (m : Mem) (p type_ : ℕ)
    → Words m p (aux_words pairs)
    → All (λ e. e.0 ≢ 0) pairs
    → length pairs < fuel
    → auxv_loop fuel m p type_ ≡ some (first_value type_ pairs)
unfolding auxv_loop
auxv_loop-first pairs zero m p type_ h nz f = absurd (omega arith)
auxv_loop-first [] (suc fuel) m p type_ (h, h') nz f = rw h (rw (h'.0) refl)
auxv_loop-first ((t, v) ∷ pairs) (suc fuel) m p type_ (ht, h) (nt, nz) f =
    let next : p + 16 ≡ p + 8 + 8 = omega arith in
    let ih = auxv_loop-first pairs fuel m (p + 8 + 8) type_ (h.1) nz (omega arith) in
    rw ht (rw (h.0) (rw (ne→== t 0 nt) (rw next (rw ih (ground arith)))))

-- In a vector whose types are not 0, given more fuel than it has entries, getauxval returns the value
-- of the first entry of the type, and 0 where there is none.
pub getauxval-first :
    (pairs : List (ℕ × ℕ)) (fuel : ℕ) (m : Mem) (p type_ : ℕ)
    → p ≢ 0
    → Words m p (aux_words pairs)
    → All (λ e. e.0 ≢ 0) pairs
    → length pairs < fuel
    → getauxval fuel m p type_ ≡ some (first_value type_ pairs)
unfolding getauxval
getauxval-first pairs fuel m p type_ some_ h nz f =
    rw (ne→== p 0 some_) (auxv_loop-first pairs fuel m p type_ h nz f)
