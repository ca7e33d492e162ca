-- ===== src/Mem/Words.antt =====
-- Words in memory, little endian: what the C code loads and stores through a pointer to an `int` or a
-- `long`.
pub mod Laws
use nolibc.Prelude.{arith, ℕ, ◌≡◌, refl, ap, List, [], ◌∷◌, ◌++◌, zero, suc, ◌+◌, ◌*◌, ◌/◌, ◌%◌}
use nolibc.Mem.{Mem, poke}

zero_plus : (b : ℕ) → 0 + b ≡ b
zero_plus b = omega arith

plus_zero : (a : ℕ) → a + 0 ≡ a
plus_zero a = omega arith

plus_suc_left : (a b : ℕ) → suc a + b ≡ suc (a + b)
plus_suc_left a b = omega arith

-- the `n` bytes from `p` on
unfoldable pub read_bytes : Mem → ℕ → ℕ → List ℕ
read_bytes m p zero = []
read_bytes m p (suc n) = m p ∷ read_bytes m (p + 1) n

-- what stands in two areas that follow each other
pub read_bytes-add :
    (m : Mem) (p a b : ℕ) → read_bytes m p (a + b) ≡ read_bytes m p a ++ read_bytes m (p + a) b
unfolding read_bytes
read_bytes-add m p zero b = rw (zero_plus b) (rw (plus_zero p) refl)
read_bytes-add m p (suc a) b = rw (plus_suc_left a b) (
    rw (read_bytes-add m (p + 1) a b)
      (ap (λ q. m p ∷ read_bytes m (p + 1) a ++ read_bytes m q b) (omega arith)))

-- the number in `n` bytes
pub load : ℕ → Mem → ℕ → ℕ
load zero m a = 0
load (suc n) m a = m a + 256 * load n m (a + 1)

unfoldable pub store : ℕ → Mem → ℕ → ℕ → Mem
store zero m a v = m
store (suc n) m a v = store n (poke m a (v % 256)) (a + 1) (v / 256)

unfoldable pub load64 : Mem → ℕ → ℕ
unfolding load
load64 = load 8

unfoldable pub store64 : Mem → ℕ → ℕ → Mem
unfolding store
store64 = store 8

unfoldable pub store32 : Mem → ℕ → ℕ → Mem
unfolding store
store32 = store 4
