-- ===== src/Str/Block/Laws.antt =====
-- What the block operations of string.h do to memory.
use nolibc.Prelude.{
  ℕ, zero, suc, ◌+◌, ◌-◌, ◌%◌, ◌^◌, ◌≤◌, ◌<◌, ◌≡◌, refl, ◌⊎◌, arith, ltb, leb, ◌&&◌, if◌then◌else◌,
}
use nolibc.Mem.{Mem, poke}
use nolibc.Str.Block.{memcpy_loop, memcpy, memmove_loop, memmove, memset_loop, memset}

-- the bytes from `lo` up to `hi` moved by a copy to `dst` from `src`; all others kept
abbrev pub copied : Mem → ℕ → ℕ → ℕ → ℕ → Mem
copied m dst src lo hi a = if leb (dst + lo) a && ltb a (dst + hi) then m (src + (a - dst)) else m a

memcpy_loop-copied :
    (n : ℕ) (m : Mem) (dst src k a : ℕ)
    → (dst + (k + n) ≤ src) ⊎ (src + (k + n) ≤ dst)
    → memcpy_loop n m dst src k a ≡ copied m dst src k (k + n) a
unfolding memcpy_loop
memcpy_loop-copied zero m dst src k a h = ground arith
memcpy_loop-copied (suc n) m dst src k a h =
    ground (arith, memcpy_loop-copied n (poke m (dst + k) (m (src + k))) dst src (k + 1) a)

-- Between two areas that do not overlap `memcpy` copies `len` bytes, and changes no other byte.
pub memcpy-copied :
    (m : Mem) (dst src len a : ℕ)
    → (dst + len ≤ src) ⊎ (src + len ≤ dst)
    → (memcpy m dst src len).0 a ≡ copied m dst src 0 len a
unfolding memcpy
memcpy-copied m dst src len a h = ground (arith, memcpy_loop-copied len m dst src 0 a)

memmove_loop-suc :
    (n : ℕ) (m : Mem) (dst src dir p k : ℕ)
    → (p + dir) % 2 ^ 64 ≡ k
    → memmove_loop (suc n) m dst src dir p
      ≡ memmove_loop n (poke m (dst + k) (m (src + k))) dst src dir k
unfolding memmove_loop
memmove_loop-suc n m dst src dir p k e = rw e

memmove_loop-zero : (m : Mem) (dst src dir p : ℕ) → memmove_loop zero m dst src dir p ≡ m
unfolding memmove_loop
memmove_loop-zero m dst src dir p = refl

forward-copied :
    (n : ℕ) (m : Mem) (dst src p k a : ℕ)
    → dst < src
    → (p + 1) % 2 ^ 64 ≡ k
    → k + n < 2 ^ 64
    → memmove_loop n m dst src 1 p a ≡ copied m dst src k (k + n) a
forward-copied zero m dst src p k a h e fits = rw memmove_loop-zero (ground arith)
forward-copied (suc n) m dst src p k a h e fits =
    rw (memmove_loop-suc n m dst src 1 p k e)
      (ground (arith, forward-copied n (poke m (dst + k) (m (src + k))) dst src k (k + 1) a h))

wrap_back : (n dir : ℕ) → dir ≡ 2 ^ 64 - 1 → n + 1 < 2 ^ 64 → (suc n + dir) % 2 ^ 64 ≡ n
wrap_back n dir e fits = omega arith

backward-copied :
    (n : ℕ) (m : Mem) (dst src dir a : ℕ)
    → src ≤ dst
    → ((j : ℕ) → j < n → (suc j + dir) % 2 ^ 64 ≡ j)
    → memmove_loop n m dst src dir n a ≡ copied m dst src 0 n a
backward-copied zero m dst src dir a h back = rw memmove_loop-zero (ground arith)
backward-copied (suc n) m dst src dir a h back =
    rw (memmove_loop-suc n m dst src dir (suc n) n (back n (omega arith))) (
      ground (
        arith,
        backward-copied n (poke m (dst + n) (m (src + n))) dst src dir a h
            (λ j lt. back j (omega arith)),
      ))

-- For every length below 2 ^ 64 and however the areas overlap, memmove leaves at dst + i the byte
-- that stood at src + i before the call, for each i below the length, changes no other byte, and
-- returns dst.
pub memmove-copied :
    (m : Mem) (dst src len a : ℕ)
    → len < 2 ^ 64
    → ((memmove m dst src len).0 a ≡ copied m dst src 0 len a) × ((memmove m dst src len).1 ≡ dst)
unfolding memmove
memmove-copied m dst src len a fits = (
  ground (
    arith,
    forward-copied len m dst src (2 ^ 64 - 1) 0 a,
    λ (h : src ≤ dst).
        backward-copied len m dst src (2 ^ 64 - 1) a h
          (λ j lt. wrap_back j (2 ^ 64 - 1) refl (omega arith)),
  ),
  refl,
)

memset_loop-filled :
    (n : ℕ) (m : Mem) (p b a : ℕ)
    → memset_loop n m p b a ≡ (if leb p a && ltb a (p + n) then b % 256 else m a)
unfolding memset_loop
memset_loop-filled zero m p b a = ground arith
memset_loop-filled (suc n) m p b a =
    ground (arith, memset_loop-filled n (poke m p (b % 256)) (p + 1) b a)

-- `memset` stores the low byte of its argument in each of the `len` bytes, and nowhere else.
pub memset-filled :
    (m : Mem) (dst b len a : ℕ)
    → (memset m dst b len).0 a ≡ (if leb dst a && ltb a (dst + len) then b % 256 else m a)
unfolding memset
memset-filled m dst b len a = memset_loop-filled len m dst b a
