-- ===== src/Str/Copy/Strlcat.antt =====
-- `strlcat`: as much of the source as fits is appended, and the result is the length it wanted.
use native.Mathlib.Decide.{dec_lt}
use nolibc.Prelude.{
  ℕ, zero, suc, ◌+◌, ◌-◌, ◌≤◌, ◌<◌, ◌≡◌, refl, sym, ap, ◌∙◌, Option, some, List, [], ◌∷◌, ◌++◌,
  arith, length, length-take, take, drop,
}
use nolibc.Mem.{Mem, poke, write_all, CStr}
use nolibc.Mem.Laws.{
  Apart, CStr-frame, CStr-append, CStr-drop, write_all-outside, SameOutside, CStr-write_all,
  SameOutside-terminated, All-take, length-drop, take_all, Bytes-frame, Bytes-CStr, Bytes-write_all,
  CStr-end, CStr-cut,
}
use nolibc.Str.Scan.{strlen, strnlen}
use nolibc.Str.Scan.Laws.{strlen-length, strnlen-min}
use nolibc.Str.Compare.Laws.{NonZero, NonZero-CStr}
use nolibc.Str.Copy.{strlcat_loop, strlcat}

strlcat_loop-short :
    (n : ℕ) (m : Mem) (dst k d q : ℕ) (s : List ℕ)
    → d ≡ dst + k
    → CStr m q s
    → Apart d n q (length s + 1)
    → length s < n
    → strlcat_loop n m dst k q ≡ (write_all m d (s ++ 0 ∷ []), k + length s, q + length s)
unfolding strlcat_loop write_all
strlcat_loop-short zero m dst k d q s ed h apart lt = absurd (omega arith)
strlcat_loop-short (suc n) m dst k d q [] ed h apart lt = rw (← ed, h) (ground arith)
strlcat_loop-short (suc n) m dst k d q (c ∷ s) ed h apart lt =
    let tail = CStr-frame m (poke m d c) (q + 1) s h.2 (λ a lo hi. ground arith) in
    rw (← ed, h.0)
      (ground
        (arith, strlcat_loop-short n (poke m d c) dst (k + 1) (d + 1) (q + 1) s (omega arith) tail))

strlcat_loop-long :
    (n : ℕ) (m : Mem) (dst k d q : ℕ) (s : List ℕ)
    → d ≡ dst + k
    → CStr m q s
    → Apart d n q (length s + 1)
    → n ≤ length s
    → strlcat_loop n m dst k q ≡ (write_all m d (take n s), k + n, q + n)
unfolding strlcat_loop write_all
strlcat_loop-long zero m dst k d q s ed h apart le = ground arith
strlcat_loop-long (suc n) m dst k d q [] ed h apart le = absurd (omega arith)
strlcat_loop-long (suc n) m dst k d q (c ∷ s) ed h apart le =
    let tail = CStr-frame m (poke m d c) (q + 1) s h.2 (λ a lo hi. ground arith) in
    rw (← ed, h.0)
      (ground
        (arith, strlcat_loop-long n (poke m d c) dst (k + 1) (d + 1) (q + 1) s (omega arith) tail))

module _ (fuel : ℕ) (m : Mem) (dst src : ℕ) (d s : List ℕ) where
  -- what `strlcat` leaves behind when it appends `t`
  abbrev Appended : ℕ → List ℕ → Option (Mem × ℕ) → Type 0
  Appended size t r =
      (m' : Mem) × (r ≡ some (m', length d + length s))
      × CStr m' dst (d ++ t)
      × SameOutside (dst + length d) (size - length d) m m'

  -- the last steps, from the memory that holds the appended bytes and their terminator
  appended :
      (size : ℕ) (m' : Mem) (t : List ℕ)
      → CStr m dst d
      → CStr m src s
      → Apart dst size src (length s + 1)
      → length d + length t < size
      → t ≡ take (length t) s
      → length s < fuel
      → CStr m' (dst + length d) t
      → SameOutside (dst + length d) (length t + 1) m m'
      → CStr m' dst (d ++ t) × (strlen fuel m' (src + length t) ≡ some (length s - length t))
  appended size m' t hd hs apart room e lt done same = (
    CStr-append m' dst (dst + length d) d t refl
        (Bytes-frame m m' dst d (Bytes-CStr m dst d hd) (λ a lo hi. same a (omega arith)))
        (NonZero-CStr m dst d hd) done,
    strlen-length fuel m' (src + length t) (drop (length t) s)
          (CStr-frame m m' (src + length t) (drop (length t) s)
            (CStr-drop m src (length t) s shorter hs)
            (λ a lo hi. same a (omega (arith, rest, shorter))))
          (omega (arith, rest))
        ∙ ap some rest,
  )
    where
      shorter : length t ≤ length s
      shorter = omega (arith, ap length e, length-take (length t) s)

      rest : length (drop (length t) s) ≡ length s - length t
      rest = length-drop (length t) s

  short-Appended :
      (size : ℕ)
      → CStr m dst d
      → CStr m src s
      → Apart dst size src (length s + 1)
      → length d + length s + 1 < size
      → length s < fuel
      → Appended size s (strlcat fuel m dst src size)
  unfolding strlcat
  short-Appended size hd hs apart room lt = (
    m',
    rw (count, loop)
        (ground (arith, (appended size m' s hd hs apart (omega arith) whole lt done same).1)),
    (appended size m' s hd hs apart (omega arith) whole lt done same).0,
    λ a out. same a (omega arith),
  )
    where
      copy : Mem
      copy = write_all m (dst + length d) (s ++ 0 ∷ [])

      m' : Mem
      m' = poke copy (dst + (length d + length s)) 0

      count : strnlen m dst size ≡ length d
      count = strnlen-min m dst d size hd ∙ omega arith

      whole : s ≡ take (length s) s
      whole = sym (take_all (length s) s (omega arith))

      loop :
          strlcat_loop (size - 1 - length d) m dst (length d) src
          ≡ (copy, length d + length s, src + length s)
      loop =
          strlcat_loop-short (size - 1 - length d) m dst (length d) (dst + length d) src s refl hs
            (omega arith) (omega arith)

      written : CStr copy (dst + length d) s
      written = CStr-write_all m (dst + length d) s (NonZero-CStr m src s hs)

      done : CStr m' (dst + length d) s
      done =
          CStr-frame copy m' (dst + length d) s written
            (λ a lo hi. ground (arith, CStr-end copy (dst + length d) a s written))

      same : SameOutside (dst + length d) (length s + 1) m m'
      same = λ a out. ground (arith, SameOutside-terminated m (dst + length d) s a)

  long-Appended :
      (size : ℕ)
      → CStr m dst d
      → CStr m src s
      → Apart dst size src (length s + 1)
      → length d < size
      → size ≤ length d + length s + 1
      → length s < fuel
      → Appended size (take (size - 1 - length d) s) (strlcat fuel m dst src size)
  unfolding strlcat
  long-Appended size hd hs apart room full lt = (
    m',
    rw (count, loop)
        (ground
          (arith, (appended size m' t hd hs apart (omega (arith, len)) whole lt done same).1, len)),
    (appended size m' t hd hs apart (omega (arith, len)) whole lt done same).0,
    λ a out. same a (omega (arith, len)),
  )
    where
      n : ℕ
      n = size - 1 - length d

      t : List ℕ
      t = take n s

      copy : Mem
      copy = write_all m (dst + length d) t

      m' : Mem
      m' = poke copy (dst + (length d + n)) 0

      len : length t ≡ n
      len = omega (arith, length-take n s)

      count : strnlen m dst size ≡ length d
      count = strnlen-min m dst d size hd ∙ omega arith

      whole : t ≡ take (length t) s
      whole = rw len

      loop : strlcat_loop n m dst (length d) src ≡ (copy, length d + n, src + n)
      loop =
          strlcat_loop-long n m dst (length d) (dst + length d) src s refl hs (omega arith)
            (omega arith)

      nonzero : NonZero t
      nonzero = All-take _ n s (NonZero-CStr m src s hs)

      done : CStr m' (dst + length d) t
      done = rw (take_all n t (omega (arith, len))) at (
          CStr-cut copy (dst + length d) n (dst + (length d + n)) t (omega arith)
            (Bytes-write_all m (dst + length d) t) nonzero (omega (arith, len)))

      same : SameOutside (dst + length d) (length t + 1) m m'
      same = λ a out. ground (arith, write_all-outside m (dst + length d) t a, len)

  -- In a buffer that holds a string and does not overlap the source, strlcat terminates, appends
  -- the longest prefix that fits with a terminator, writes only between the old terminator and
  -- the end of the buffer, and returns the sum of the two lengths.
  pub strlcat-CStr :
      (size : ℕ)
      → CStr m dst d
      → CStr m src s
      → Apart dst size src (length s + 1)
      → length d < size
      → length s < fuel
      → (m' : Mem) × (strlcat fuel m dst src size ≡ some (m', length d + length s))
        × CStr m' dst (d ++ take (size - 1 - length d) s)
        × SameOutside (dst + length d) (size - length d) m m'
  strlcat-CStr size hd hs apart room lt = elim (dec_lt (length d + length s + 1) size) [
    | yes short ↦
        rw (take_all (size - 1 - length d) s (omega arith))
          (short-Appended size hd hs apart short lt)
    | no long ↦ long-Appended size hd hs apart room (omega arith) lt
  ]
