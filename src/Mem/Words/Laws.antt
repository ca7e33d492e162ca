-- ===== src/Mem/Words/Laws.antt =====
-- Loads and stores of words: a load reads what was stored, and a store elsewhere does not disturb it.
use nolibc.Prelude.{
  List, [], ◌∷◌, ◌++◌, length, arith, ℕ, zero, suc, ◌+◌, ◌*◌, ◌/◌, ◌%◌, ◌^◌, ◌≤◌, ◌<◌, ◌≡◌, ◌∙◌,
  ◌⊎◌, inl, refl, ap,
}
use nolibc.Mem.{Mem, poke, Bytes}
use nolibc.Mem.Laws.{Apart}
use nolibc.Mem.Words.{read_bytes, load, store, store32, load64, store64}

pub store-outside : (n : ℕ) (m : Mem) (a v b : ℕ) → (b < a) ⊎ (a + n ≤ b) → store n m a v b ≡ m b
unfolding store
store-outside zero m a v b out = refl
store-outside (suc n) m a v b out =
    ground (arith, store-outside n (poke m a (v % 256)) (a + 1) (v / 256) b)

-- a load sees only the bytes of its word
pub load-frame :
    (n : ℕ) (m m' : Mem) (a : ℕ)
    → ((b : ℕ) → a ≤ b → b < a + n → m' b ≡ m b)
    → load n m' a ≡ load n m a
unfolding load
load-frame zero m m' a same = refl
load-frame (suc n) m m' a same = omega (
  arith,
  same a (omega arith) (omega arith),
  load-frame n m m' (a + 1) (λ b lo hi. same b (omega arith) (omega arith)),
)

-- the `n` lowest bytes of a number
abbrev pub bytes_of : ℕ → ℕ → ℕ
bytes_of zero v = 0
bytes_of (suc n) v = v % 256 + 256 * bytes_of n (v / 256)

load-store : (n : ℕ) (m : Mem) (a v : ℕ) → load n (store n m a v) a ≡ bytes_of n v
unfolding load store
load-store zero m a v = refl
load-store (suc n) m a v =
    let m' = poke m a (v % 256) in
    let first : store n m' (a + 1) (v / 256) a ≡ v % 256 =
      store-outside n m' (a + 1) (v / 256) a (inl (omega arith)) ∙ ground arith in
    omega (arith, first, load-store n m' (a + 1) (v / 256))

pub load64-store64 : (m : Mem) (a v : ℕ) → v < 2 ^ 64 → load64 (store64 m a v) a ≡ v
unfolding load64 store64
load64-store64 m a v h = load-store 8 m a v ∙ omega arith

pub load64-store64-Apart :
    (m : Mem) (a b v : ℕ) → Apart a 8 b 8 → load64 (store64 m a v) b ≡ load64 m b
unfolding load64 store64
load64-store64-Apart m a b v apart =
    load-frame 8 m (store 8 m a v) b (λ c lo hi. store-outside 8 m a v c (omega arith))

pub store64-outside : (m : Mem) (a v b : ℕ) → (b < a) ⊎ (a + 8 ≤ b) → store64 m a v b ≡ m b
unfolding store64
store64-outside = store-outside 8

-- a memory that holds bytes
abbrev pub Bytewise : Mem → Type 0
Bytewise m = (a : ℕ) → m a < 256

pub load64_bound : (m : Mem) (a : ℕ) → Bytewise m → load64 m a < 2 ^ 64
unfolding load64 load
load64_bound m a bytes = omega (
  arith,
  bytes a,
  bytes (a + 1),
  bytes (a + 1 + 1),
  bytes (a + 1 + 1 + 1),
  bytes (a + 1 + 1 + 1 + 1),
  bytes (a + 1 + 1 + 1 + 1 + 1),
  bytes (a + 1 + 1 + 1 + 1 + 1 + 1),
  bytes (a + 1 + 1 + 1 + 1 + 1 + 1 + 1),
)

-- a sequence of words from `p` on
abbrev pub Words : Mem → ℕ → List ℕ → Type 0
Words m p [] = Unit
Words m p (x ∷ xs) = (load64 m p ≡ x) × Words m (p + 8) xs

-- the words behind the first ones
pub Words-behind :
    (m : Mem) (p q : ℕ) (xs ys : List ℕ)
    → q ≡ p + 8 * length xs
    → Words m p (xs ++ ys)
    → Words m q ys
Words-behind m p q [] ys e h = let same : q ≡ p = omega arith in rw same h
Words-behind m p q (x ∷ xs) ys e h = Words-behind m (p + 8) q xs ys (omega arith) h.1

-- the same with one word between
pub Words-past :
    (m : Mem) (p q : ℕ) (xs : List ℕ) (y : ℕ) (ys : List ℕ)
    → q ≡ p + 8 * length xs + 8
    → Words m p (xs ++ (y ∷ ys))
    → Words m q ys
Words-past m p q xs y ys e h = rw e ((Words-behind m p (p + 8 * length xs) xs (y ∷ ys) refl h).1)

pub load64-frame :
    (m m' : Mem) (a : ℕ) → ((b : ℕ) → a ≤ b → b < a + 8 → m' b ≡ m b) → load64 m' a ≡ load64 m a
unfolding load64
load64-frame = load-frame 8

pub read_bytes-frame :
    (m m' : Mem) (p n : ℕ)
    → ((a : ℕ) → p ≤ a → a < p + n → m' a ≡ m a)
    → read_bytes m' p n ≡ read_bytes m p n
unfolding read_bytes
read_bytes-frame m m' p zero same = refl
read_bytes-frame m m' p (suc n) same = rw (same p (omega arith) (omega arith)) (
    ap (λ s. m p ∷ s)
      (read_bytes-frame m m' (p + 1) n (λ a lo hi. same a (omega arith) (omega arith))))

pub read_bytes-Bytes : (m : Mem) (p : ℕ) (s : List ℕ) → Bytes m p s → read_bytes m p (length s) ≡ s
unfolding read_bytes
read_bytes-Bytes m p [] b = refl
read_bytes-Bytes m p (c ∷ s) (e, b) = rw e (ap (λ t. c ∷ t) (read_bytes-Bytes m (p + 1) s b))

pub Bytes-read_bytes : (m : Mem) (p n : ℕ) → Bytes m p (read_bytes m p n)
unfolding read_bytes
Bytes-read_bytes m p zero = tt
Bytes-read_bytes m p (suc n) = (refl, Bytes-read_bytes m (p + 1) n)

-- a store of four bytes takes the low 32 bits
pub store32-mod : (m : Mem) (a v w : ℕ) → v % 2 ^ 32 ≡ w % 2 ^ 32 → store32 m a v ≡ store32 m a w
unfolding store32 store
store32-mod m a v w e =
    let e0 : v % 256 ≡ w % 256 = omega arith in
    let e1 : v / 256 % 256 ≡ w / 256 % 256 = omega arith in
    let e2 : v / 256 / 256 % 256 ≡ w / 256 / 256 % 256 = omega arith in
    let e3 : v / 256 / 256 / 256 % 256 ≡ w / 256 / 256 / 256 % 256 = omega arith in
    rw e0 (rw e1 (rw e2 (rw e3 refl)))
