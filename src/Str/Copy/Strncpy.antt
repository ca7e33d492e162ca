-- ===== src/Str/Copy/Strncpy.antt =====
-- `strncpy`: exactly `size` bytes are written, the string cut to that length or padded by zeros.
use nolibc.Prelude.{
  ℕ, zero, suc, ◌+◌, ◌-◌, ◌≡◌, refl, List, [], ◌∷◌, ◌++◌, arith, length, take, replicate, ne→==, ap,
}
use nolibc.Mem.{Mem, poke, write_all, Bytes, CStr}
use nolibc.Mem.Laws.{
  Apart, Bytes-frame, Bytes-write_all, CStr-frame, write_all-outside, SameOutside,
}
use nolibc.Str.Copy.{strncpy_loop, strncpy}

-- the `n` bytes that the copy of a string consists of
abbrev pub padded : ℕ → List ℕ → List ℕ
padded zero s = []
padded (suc n) [] = 0 ∷ padded n []
padded (suc n) (c ∷ s) = c ∷ padded n s

padded-nil : (n : ℕ) → padded n [] ≡ replicate n 0
padded-nil zero = refl
padded-nil (suc n) = ap (λ t. 0 ∷ t) (padded-nil n)

pub padded-append : (n : ℕ) (s : List ℕ) → padded n s ≡ take n s ++ replicate (n - length s) 0
padded-append zero s = let e : 0 - length s ≡ 0 = omega arith in rw e
padded-append (suc n) [] =
    let e : suc n - 0 ≡ suc n = omega arith in rw e (ap (λ t. 0 ∷ t) (padded-nil n))
padded-append (suc n) (c ∷ s) =
    let e : suc n - suc (length s) ≡ n - length s = omega arith in
    rw e (ap (λ t. c ∷ t) (padded-append n s))

length-padded : (n : ℕ) (s : List ℕ) → length (padded n s) ≡ n
length-padded zero s = refl
length-padded (suc n) [] = omega (arith, length-padded n [])
length-padded (suc n) (c ∷ s) = omega (arith, length-padded n s)

strncpy_loop-write_all :
    (n : ℕ) (m : Mem) (dst src k d a : ℕ) (s : List ℕ)
    → d ≡ dst + k
    → CStr m src s
    → Apart d n src (length s + 1)
    → strncpy_loop n m dst src k a ≡ write_all m d (padded n s) a
unfolding strncpy_loop write_all
strncpy_loop-write_all zero m dst src k d a s e h apart = refl
strncpy_loop-write_all (suc n) m dst src k d a [] e h apart =
    rw (← e, h)
      (strncpy_loop-write_all n (poke m d 0) dst src (k + 1) (d + 1) a [] (omega arith)
        (ground arith) (omega arith))
strncpy_loop-write_all (suc n) m dst src k d a (c ∷ s) e h apart =
    let tail = CStr-frame m (poke m d c) (src + 1) s h.2 (λ b lo hi. ground arith) in
    rw (← e, h.0, ne→== c 0 h.1)
      (strncpy_loop-write_all n (poke m d c) dst (src + 1) (k + 1) (d + 1) a s (omega arith) tail
        (omega arith))

-- Where the source does not overlap the buffer, strncpy writes exactly size bytes, the string cut
-- to that length and padded by zeros, and nothing else.
pub strncpy-padded :
    (m : Mem) (dst src : ℕ) (s : List ℕ) (size : ℕ)
    → CStr m src s
    → Apart dst size src (length s + 1)
    → Bytes (strncpy m dst src size).0 dst (take size s ++ replicate (size - length s) 0)
      × SameOutside dst size m (strncpy m dst src size).0
unfolding strncpy
strncpy-padded m dst src s size h apart = (
  rw (padded-append size s) at (
      Bytes-frame (write_all m dst (padded size s)) _ dst (padded size s)
        (Bytes-write_all m dst (padded size s)) (λ a lo hi. loop a)),
  λ a out.
      rw (loop a)
        (write_all-outside m dst (padded size s) a (ground (arith, length-padded size s))),
)
  where
    loop : (a : ℕ) → strncpy_loop size m dst src 0 a ≡ write_all m dst (padded size s) a
    loop a = strncpy_loop-write_all size m dst src 0 dst a s (omega arith) h apart
