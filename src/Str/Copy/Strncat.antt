-- ===== src/Str/Copy/Strncat.antt =====
-- `strncat`: at most `size` bytes are appended, and a terminator always follows.
use nolibc.Prelude.{
  ℕ, zero, suc, ◌+◌, ◌<◌, ◌≡◌, refl, some, List, [], ◌∷◌, ◌++◌, arith, ne→==, length, take,
}
use nolibc.Mem.{Mem, poke, write_all, CStr}
use nolibc.Mem.Laws.{
  Apart, Bytes-frame, Bytes-CStr, CStr-append, CStr-frame, CStr-write_all, All-take, SameOutside,
  SameOutside-terminated,
}
use nolibc.Str.Scan.Laws.{strlen-length}
use nolibc.Str.Compare.Laws.{NonZero, NonZero-CStr}
use nolibc.Str.Copy.{strncat_loop, strncat}

strncat_loop-write_all :
    (n : ℕ) (m : Mem) (dst src a : ℕ) (s : List ℕ)
    → CStr m src s
    → Apart dst (length (take n s) + 1) src (length s + 1)
    → strncat_loop n m dst src a ≡ write_all m dst (take n s ++ 0 ∷ []) a
unfolding strncat_loop write_all
strncat_loop-write_all zero m dst src a s h apart = refl
strncat_loop-write_all (suc n) m dst src a [] h apart = rw h (ground arith)
strncat_loop-write_all (suc n) m dst src a (c ∷ s) h apart =
    let tail = CStr-frame m (poke m dst c) (src + 1) s h.2 (λ b lo hi. ground arith) in
    rw (h.0, ne→== c 0 h.1)
      (strncat_loop-write_all n (poke m dst c) (dst + 1) (src + 1) a s tail (omega arith))

module _ (fuel : ℕ) (m : Mem) (dst src : ℕ) (d s : List ℕ) (size : ℕ) where
  -- Where the source does not overlap what is written, strncat terminates, appends the first size
  -- bytes of the source, or all if there are fewer, and a terminator, writes nothing else and
  -- returns dst.
  pub strncat-CStr :
      CStr m dst d
      → CStr m src s
      → Apart (dst + length d) (length (take size s) + 1) src (length s + 1)
      → length d < fuel
      → (m' : Mem) × (strncat fuel m dst src size ≡ some (m', dst))
        × CStr m' dst (d ++ take size s)
        × SameOutside (dst + length d) (length (take size s) + 1) m m'
  unfolding strncat
  strncat-CStr hd hs apart lt = (
    strncat_loop size m (dst + length d) src,
    rw (strlen-length fuel m dst d hd lt),
    CStr-append _ dst (dst + length d) d (take size s) refl
        (Bytes-frame m _ dst d (Bytes-CStr m dst d hd) (λ a lo hi. same a (omega arith)))
        (NonZero-CStr m dst d hd)
        (CStr-frame copy _ (dst + length d) (take size s)
          (CStr-write_all m (dst + length d) (take size s) nonzero) (λ a lo hi. loop a)),
    same,
  )
    where
      copy : Mem
      copy = write_all m (dst + length d) (take size s ++ 0 ∷ [])

      nonzero : NonZero (take size s)
      nonzero = All-take _ size s (NonZero-CStr m src s hs)

      loop : (a : ℕ) → strncat_loop size m (dst + length d) src a ≡ copy a
      loop a = strncat_loop-write_all size m (dst + length d) src a s hs apart

      same :
          SameOutside
            (dst + length d)
            (length (take size s) + 1)
            m
            (strncat_loop size m (dst + length d) src)
      same a out = rw (loop a) (SameOutside-terminated m (dst + length d) (take size s) a out)
