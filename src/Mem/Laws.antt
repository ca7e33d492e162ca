-- ===== src/Mem/Laws.antt =====
-- Laws of memory: what a run of stores leaves alone, and what stands there afterwards.
use nolibc.Prelude.{
  ℕ, zero, suc, ◌+◌, ◌-◌, ◌≤◌, ◌<◌, ◌≡◌, ◌≢◌, refl, ap, ◌⊎◌, inl, inr, List, [], ◌∷◌, ◌++◌, arith,
  length, length-append, take, drop, All,
}
use nolibc.Mem.{Mem, poke, write_all, Bytes, CStr}

-- `m'` agrees with `m` outside the `n` bytes at `p`
abbrev pub SameOutside : ℕ → ℕ → Mem → Mem → Type 0
SameOutside p n m m' = (a : ℕ) → (a < p) ⊎ (p + n ≤ a) → m' a ≡ m a

pub write_all-outside :
    (m : Mem) (p : ℕ) (s : List ℕ) → SameOutside p (length s) m (write_all m p s)
unfolding write_all
write_all-outside m p [] a h = refl
write_all-outside m p (c ∷ s) a h = ground (arith, write_all-outside (poke m p c) (p + 1) s a)

pub Bytes-write_all : (m : Mem) (p : ℕ) (s : List ℕ) → Bytes (write_all m p s) p s
unfolding write_all
Bytes-write_all m p [] = tt
Bytes-write_all m p (c ∷ s) = (
  ground (arith, write_all-outside (poke m p c) (p + 1) s p),
  Bytes-write_all (poke m p c) (p + 1) s,
)

-- a string survives any change that spares its bytes and its terminator
pub CStr-frame :
    (m m' : Mem) (p : ℕ) (s : List ℕ)
    → CStr m p s
    → ((a : ℕ) → p ≤ a → a ≤ p + length s → m' a ≡ m a)
    → CStr m' p s
CStr-frame m m' p [] h same = ground (arith, same p)
CStr-frame m m' p (c ∷ s) (e, nz, h) same = (
  ground (arith, same p),
  nz,
  CStr-frame m m' (p + 1) s h (λ a lo hi. same a (omega arith) (omega arith)),
)

pub CStr-Bytes :
    (m : Mem) (p : ℕ) (s : List ℕ) → All (λ c. c ≢ 0) s → Bytes m p (s ++ 0 ∷ []) → CStr m p s
CStr-Bytes m p [] nz b = b.0
CStr-Bytes m p (c ∷ s) nz b = (b.0, nz.0, CStr-Bytes m (p + 1) s nz.1 b.1)

pub CStr-write_all :
    (m : Mem) (p : ℕ) (s : List ℕ) → All (λ c. c ≢ 0) s → CStr (write_all m p (s ++ 0 ∷ [])) p s
CStr-write_all m p s nz = CStr-Bytes _ p s nz (Bytes-write_all m p (s ++ 0 ∷ []))

-- the `n` bytes at `p` and the `k` bytes at `q` do not overlap
abbrev pub Apart : ℕ → ℕ → ℕ → ℕ → Type 0
Apart p n q k = (p + n ≤ q) ⊎ (q + k ≤ p)

pub SameOutside-terminated :
    (m : Mem) (p : ℕ) (s : List ℕ) → SameOutside p (length s + 1) m (write_all m p (s ++ 0 ∷ []))
SameOutside-terminated m p s a h =
    write_all-outside m p (s ++ 0 ∷ []) a (ground (arith, length-append s (0 ∷ [])))

-- a zero put `k` bytes into a longer run of bytes ends a string there
pub CStr-cut :
    (m : Mem) (p k q : ℕ) (t : List ℕ)
    → q ≡ p + k
    → Bytes m p t
    → All (λ c. c ≢ 0) t
    → k ≤ length t
    → CStr (poke m q 0) p (take k t)
CStr-cut m p zero q t e b nz le = ground arith
CStr-cut m p (suc k) q [] e b nz le = absurd (omega arith)
CStr-cut m p (suc k) q (c ∷ t) e b nz le =
    (ground arith, nz.0, CStr-cut m (p + 1) k q t (omega arith) b.1 nz.1 (omega arith))

pub Bytes-frame :
    (m m' : Mem) (p : ℕ) (s : List ℕ)
    → Bytes m p s
    → ((a : ℕ) → p ≤ a → a < p + length s → m' a ≡ m a)
    → Bytes m' p s
Bytes-frame m m' p [] h same = tt
Bytes-frame m m' p (c ∷ s) (e, h) same = (
  ground (arith, same p),
  Bytes-frame m m' (p + 1) s h (λ a lo hi. same a (omega arith) (omega arith)),
)

pub All-take {ℓ κ} : {A : Type ℓ} (P : A → Type κ) (n : ℕ) (s : List A) → All P s → All P (take n s)
All-take P zero s h = tt
All-take P (suc n) [] h = tt
All-take P (suc n) (x ∷ s) h = (h.0, All-take P n s h.1)

pub take-take {ℓ} : {A : Type ℓ} (k : ℕ) (s : List A) → take k (take (suc k) s) ≡ take k s
take-take zero s = refl
take-take (suc k) [] = refl
take-take (suc k) (x ∷ s) = ap (λ t. x ∷ t) (take-take k s)

-- what is left of a string after `k` of its bytes is a string
pub CStr-drop :
    (m : Mem) (p k : ℕ) (s : List ℕ) → k ≤ length s → CStr m p s → CStr m (p + k) (drop k s)
CStr-drop m p zero s le h = let e : p + 0 ≡ p = omega arith in rw e h
CStr-drop m p (suc k) [] le h = absurd (omega arith)
CStr-drop m p (suc k) (c ∷ s) le h =
    let e : p + suc k ≡ p + 1 + k = omega arith in rw e (CStr-drop m (p + 1) k s (omega arith) h.2)

pub length-drop {ℓ} : {A : Type ℓ} (k : ℕ) (s : List A) → length (drop k s) ≡ length s - k
length-drop zero s = omega arith
length-drop (suc k) [] = omega arith
length-drop (suc k) (x ∷ s) = omega (arith, length-drop k s)

pub take_all {ℓ} : {A : Type ℓ} (n : ℕ) (s : List A) → length s ≤ n → take n s ≡ s
take_all zero [] le = refl
take_all zero (x ∷ s) le = absurd (omega arith)
take_all (suc n) [] le = refl
take_all (suc n) (x ∷ s) le = ap (λ t. x ∷ t) (take_all n s (omega arith))

-- two runs of stores make one
pub write_all-append :
    (m : Mem) (p q : ℕ) (s t : List ℕ)
    → q ≡ p + length s
    → write_all (write_all m p s) q t ≡ write_all m p (s ++ t)
unfolding write_all
write_all-append m p q [] t e = let e' : q ≡ p = omega arith in rw e'
write_all-append m p q (c ∷ s) t e = write_all-append (poke m p c) (p + 1) q s t (omega arith)

-- a string whose terminator is overwritten by another string
pub CStr-append :
    (m : Mem) (p q : ℕ) (s t : List ℕ)
    → q ≡ p + length s
    → Bytes m p s
    → All (λ c. c ≢ 0) s
    → CStr m q t
    → CStr m p (s ++ t)
CStr-append m p q [] t e b nz h = let e' : q ≡ p = omega arith in rw (← e') h
CStr-append m p q (c ∷ s) t e b nz h =
    (b.0, nz.0, CStr-append m (p + 1) q s t (omega arith) b.1 nz.1 h)

pub Bytes-CStr : (m : Mem) (p : ℕ) (s : List ℕ) → CStr m p s → Bytes m p s
Bytes-CStr m p [] h = tt
Bytes-CStr m p (c ∷ s) h = (h.0, Bytes-CStr m (p + 1) s h.2)

pub CStr-end : (m : Mem) (p q : ℕ) (s : List ℕ) → CStr m p s → q ≡ p + length s → m q ≡ 0
CStr-end m p q [] h e = let e' : q ≡ p = omega arith in rw e' h
CStr-end m p q (c ∷ s) h e = CStr-end m (p + 1) q s h.2 (omega arith)

pub Bytes-take : (m : Mem) (p k : ℕ) (s : List ℕ) → Bytes m p s → Bytes m p (take k s)
Bytes-take m p zero s b = tt
Bytes-take m p (suc k) [] b = tt
Bytes-take m p (suc k) (c ∷ s) b = (b.0, Bytes-take m (p + 1) k s b.1)

pub take-append {ℓ} : {A : Type ℓ} (s t : List A) → take (length s) (s ++ t) ≡ s
take-append [] t = refl
take-append (x ∷ s) t = ap (λ r. x ∷ r) (take-append s t)

pub Bytes-behind :
    (m : Mem) (p q : ℕ) (s t : List ℕ) → q ≡ p + length s → Bytes m p (s ++ t) → Bytes m q t
Bytes-behind m p q [] t e b = let e' : q ≡ p = omega arith in rw e' b
Bytes-behind m p q (c ∷ s) t e b = Bytes-behind m (p + 1) q s t (omega arith) b.1

pub Bytes-front :
    (m : Mem) (p x : ℕ) (s t : List ℕ) → Bytes m p (s ++ x ∷ t) → Bytes m p (s ++ x ∷ [])
Bytes-front m p x [] t b = (b.0, tt)
Bytes-front m p x (c ∷ s) t b = (b.0, Bytes-front m (p + 1) x s t b.1)

pub Bytes-snoc :
    (m : Mem) (p q : ℕ) (s : List ℕ) (c : ℕ)
    → q ≡ p + length s
    → Bytes m p s
    → m q ≡ c
    → Bytes m p (s ++ c ∷ [])
Bytes-snoc m p q [] c e b h = let e' : p ≡ q = omega arith in (rw e' h, tt)
Bytes-snoc m p q (x ∷ s) c e b h = (b.0, Bytes-snoc m (p + 1) q s c (omega arith) b.1 h)

pub CStr-behind : (m : Mem) (p : ℕ) (s t : List ℕ) → CStr m p (s ++ t) → CStr m (p + length s) t
CStr-behind m p [] t h = let e : p + 0 ≡ p = omega arith in rw e h
CStr-behind m p (c ∷ s) t h =
    let e : p + suc (length s) ≡ p + 1 + length s = omega arith in
    rw e (CStr-behind m (p + 1) s t h.2)

-- what stands in one of two areas that do not overlap stands outside the other
pub outside_other : (p n q k a : ℕ) → Apart p n q k → q ≤ a → a < q + k → (a < p) ⊎ (p + n ≤ a)
outside_other p n q k a (inl h) lo hi = inr (omega arith)
outside_other p n q k a (inr h) lo hi = inl (omega arith)
