-- ===== src/Str/Copy/Strlcpy.antt =====
-- `strlcpy`: the copy is cut to the buffer, always terminated, and the result is the full length.
use nolibc.Prelude.{
  ℕ, zero, suc, ◌+◌, ◌-◌, ◌≤◌, ◌<◌, ◌≡◌, refl, true, false, some, List, [], ◌∷◌, ◌++◌, arith,
  length, length-take, take, drop,
}
use native.Mathlib.Decide.{dec_lt}
use nolibc.Mem.{Mem, poke, write_all, CStr}
use nolibc.Mem.Laws.{
  Apart, CStr-frame, CStr-write_all, CStr-cut, CStr-drop, Bytes-write_all, write_all-outside,
  SameOutside, SameOutside-terminated, All-take, take-take, length-drop, take_all,
}
use nolibc.Str.Scan.Laws.{strlen-length}
use nolibc.Str.Compare.Laws.{NonZero-CStr}
use nolibc.Str.Copy.{strlcpy_loop, strlcpy}

-- the bytes at `src + k` are read before they could be written
strlcpy_loop-short :
    (n : ℕ) (m : Mem) (dst src k d q : ℕ) (s : List ℕ)
    → d ≡ dst + k
    → q ≡ src + k
    → CStr m q s
    → Apart d n q (length s + 1)
    → length s < n
    → strlcpy_loop n m dst src k ≡ (write_all m d (s ++ 0 ∷ []), k + length s, true)
unfolding strlcpy_loop write_all
strlcpy_loop-short zero m dst src k d q s ed eq h apart lt = absurd (omega arith)
strlcpy_loop-short (suc n) m dst src k d q [] ed eq h apart lt = rw (← ed, ← eq, h) (ground arith)
strlcpy_loop-short (suc n) m dst src k d q (c ∷ s) ed eq h apart lt =
    let tail = CStr-frame m (poke m d c) (q + 1) s h.2 (λ a lo hi. ground arith) in
    rw (← ed, ← eq, h.0)
      (ground (
        arith,
        strlcpy_loop-short n (poke m d c) dst src (k + 1) (d + 1) (q + 1) s (omega arith)
            (omega arith) tail,
      ))

strlcpy_loop-long :
    (n : ℕ) (m : Mem) (dst src k d q : ℕ) (s : List ℕ)
    → d ≡ dst + k
    → q ≡ src + k
    → CStr m q s
    → Apart d n q (length s + 1)
    → n ≤ length s
    → strlcpy_loop n m dst src k ≡ (write_all m d (take n s), k + n, false)
unfolding strlcpy_loop write_all
strlcpy_loop-long zero m dst src k d q s ed eq h apart le = ground arith
strlcpy_loop-long (suc n) m dst src k d q [] ed eq h apart le = absurd (omega arith)
strlcpy_loop-long (suc n) m dst src k d q (c ∷ s) ed eq h apart le =
    let tail = CStr-frame m (poke m d c) (q + 1) s h.2 (λ a lo hi. ground arith) in
    rw (← ed, ← eq, h.0)
      (ground (
        arith,
        strlcpy_loop-long n (poke m d c) dst src (k + 1) (d + 1) (q + 1) s (omega arith)
            (omega arith) tail,
      ))

module _ (fuel : ℕ) (m : Mem) (dst src : ℕ) (s : List ℕ) where
  strlcpy-short :
      (size : ℕ)
      → CStr m src s
      → Apart dst size src (length s + 1)
      → length s < size
      → (m' : Mem) × (strlcpy fuel m dst src size ≡ some (m', length s))
        × CStr m' dst (take (size - 1) s)
        × SameOutside dst size m m'
  unfolding strlcpy
  strlcpy-short size h apart lt = (
    write_all m dst (s ++ 0 ∷ []),
    rw (strlcpy_loop-short size m dst src 0 dst src s (omega arith) (omega arith) h apart lt)
        (ground arith),
    rw (take_all (size - 1) s (omega arith)) (CStr-write_all m dst s (NonZero-CStr m src s h)),
    λ a out. SameOutside-terminated m dst s a (omega arith),
  )

  strlcpy-long :
      (k : ℕ)
      → CStr m src s
      → Apart dst (suc k) src (length s + 1)
      → suc k ≤ length s
      → length s < fuel
      → (m' : Mem) × (strlcpy fuel m dst src (suc k) ≡ some (m', length s))
        × CStr m' dst (take k s)
        × SameOutside dst (suc k) m m'
  unfolding strlcpy
  strlcpy-long k h apart le lt = (
    poke copy (dst + k) 0,
    rw (strlcpy_loop-long (suc k) m dst src 0 dst src s (omega arith) (omega arith) h apart le) (
        ground (
          arith,
          strlen-length fuel (poke copy (dst + k) 0) (src + suc k) (drop (suc k) s) tail,
          rest,
        )),
    rw (take-take k s) at (
        CStr-cut copy dst k (dst + k) (take (suc k) s) refl (Bytes-write_all m dst (take (suc k) s))
          (All-take _ (suc k) s (NonZero-CStr m src s h)) (omega (arith, size))),
    λ a out. ground (arith, write_all-outside m dst (take (suc k) s) a, size),
  )
    where
      copy : Mem
      copy = write_all m dst (take (suc k) s)

      size : length (take (suc k) s) ≡ suc k
      size = omega (arith, length-take (suc k) s)

      rest : length (drop (suc k) s) ≡ length s - suc k
      rest = length-drop (suc k) s

      tail : CStr (poke copy (dst + k) 0) (src + suc k) (drop (suc k) s)
      tail =
          CStr-frame m (poke copy (dst + k) 0) (src + suc k) (drop (suc k) s)
            (CStr-drop m src (suc k) s le h)
            (λ a lo hi. ground (arith, write_all-outside m dst (take (suc k) s) a, size, rest))

  -- With a buffer of at least one byte that does not overlap the source, strlcpy terminates,
  -- leaves the longest prefix that fits with a terminator, writes inside the buffer only and
  -- returns the length of the source.
  pub strlcpy-CStr :
      (size : ℕ)
      → CStr m src s
      → Apart dst size src (length s + 1)
      → 0 < size
      → length s < fuel
      → (m' : Mem) × (strlcpy fuel m dst src size ≡ some (m', length s))
        × CStr m' dst (take (size - 1) s)
        × SameOutside dst size m m'
  strlcpy-CStr zero h apart some_room lt = absurd (omega arith)
  strlcpy-CStr (suc k) h apart some_room lt = elim (dec_lt (length s) (suc k)) [
    | yes short ↦ strlcpy-short (suc k) h apart short
    | no long ↦
        let e : suc k - 1 ≡ k = omega arith in rw e (strlcpy-long k h apart (omega arith) lt)
  ]
