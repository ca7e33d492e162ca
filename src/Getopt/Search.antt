-- ===== src/Getopt/Search.antt =====
-- The search of `getopt` through the option string.
use nolibc.Prelude.{
  ℕ, zero, suc, ◌+◌, ◌<◌, ◌≡◌, ◌≢◌, ◌∙◌, refl, sym, ap, true, false, not, ◌||◌, some, List, [], ◌∷◌,
  ◌==◌, if◌then◌else◌, arith, length, inl, inr, Bool-cases, ne→==, ==→eq,
}
use mathlib.Core.Path.{subst}
use nolibc.Mem.{Mem, CStr}
use nolibc.Getopt.{option_loop}
use nolibc.Getopt.Machine.{Kind, unknown, flag, required, optional, colons, kind_of}

-- what the code reads of the character `d` that it stopped at, and at `r` behind it
abbrev pub Reading : Mem → ℕ → ℕ → ℕ → Kind → Type 0
Reading m c d r unknown = (not (d == c) || (c == b':')) ≡ true
Reading m c d r flag = ((not (d == c) || (c == b':')) ≡ false) × ((m r == b':') ≡ false)
Reading m c d r required =
    ((not (d == c) || (c == b':')) ≡ false) × ((m r == b':') ≡ true) × ((m (r + 1) == b':') ≡ false)
Reading m c d r optional =
    ((not (d == c) || (c == b':')) ≡ false) × ((m r == b':') ≡ true) × ((m (r + 1) == b':') ≡ true)

colons-Reading :
    (m : Mem) (c d r : ℕ) (rest : List ℕ)
    → (not (d == c) || (c == b':')) ≡ false
    → CStr m r rest
    → Reading m c d r (colons rest)
colons-Reading m c d r [] f h = (f, ground arith)
colons-Reading m c d r (x ∷ []) f (e, nz, h) = elim (Bool-cases (x == b':')) [
  | inl y ↦ rw y (f, rw e y, ground arith)
  | inr n ↦ rw n (f, rw e n)
]
colons-Reading m c d r (x ∷ x' ∷ rest) f (e, nz, (e', nz', h)) = elim (Bool-cases (x == b':')) [
  | inl y ↦ rw y (elim (Bool-cases (x' == b':')) [
    | inl y' ↦ rw y' (f, rw e y, rw e' y')
    | inr n' ↦ rw n' (f, rw e y, rw e' n')
  ])
  | inr n ↦ rw n (f, rw e n)
]

same_character :
    (m : Mem) (c r : ℕ) (rest : List ℕ)
    → CStr m r rest
    → Reading m c c r (if c == b':' then unknown else colons rest)
same_character m c r rest h = elim (Bool-cases (c == b':')) [
  | inl y ↦ rw y (ground arith)
  | inr n ↦ rw n (colons-Reading m c c r rest (ground arith) h)
]

-- the loop stops at the first occurrence of the character, or at the end
pub option_loop-Reading :
    (m : Mem) (optstring c : ℕ) (s : List ℕ) (fuel i q : ℕ)
    → CStr m q s
    → q ≡ optstring + i
    → length s < fuel
    → c ≢ 0
    → (d j : ℕ) × (option_loop fuel m optstring c i ≡ some (d, j))
      × Reading m c d (optstring + j) (kind_of c s)
unfolding option_loop
option_loop-Reading m optstring c s zero i q h e f nz = absurd (omega arith)
option_loop-Reading m optstring c [] (suc fuel) i q h e f nz =
    let here : m (optstring + i) ≡ 0 = ap m (omega arith) ∙ h in
    (0, i + 1, rw here refl, ground arith)
option_loop-Reading m optstring c (x ∷ s) (suc fuel) i q (e, xz, h) at f nz =
    let here : m (optstring + i) ≡ x = ap m (omega arith) ∙ e in
    elim (Bool-cases (x == c)) [
      | inl y ↦
          let same = ==→eq x c y in
          let behind : CStr m (optstring + (i + 1)) s = subst (λ r. CStr m r s) (omega arith) h in
          (
            x,
            i + 1,
            rw here (ground arith),
            rw y (
                subst
                  (λ z.
                    Reading m c z (optstring + (i + 1)) (if c == b':' then unknown else colons s))
                  (sym same) (same_character m c (optstring + (i + 1)) s behind)),
          )
      | inr n ↦
          let (d, j, run, read) =
            option_loop-Reading m optstring c s fuel (i + 1) (q + 1) h (omega arith) (omega arith)
              nz in
          (d, j, rw here (rw (ne→== x 0 xz) (rw n run)), rw n read)
    ]
