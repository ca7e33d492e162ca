-- ===== src/Stdlib/Decimal/Digits.antt =====
-- `u64toa_r` and `utoa_r` write the decimal notation of every 64-bit number.
use native.Mathlib.Decide.{dec_lt}
use native.Mathlib.Nat.{div-add-mod', mod-lt}
use nolibc.Prelude.{
  ℕ, zero, suc, ◌+◌, ◌-◌, ◌*◌, ◌/◌, ◌%◌, ◌^◌, ◌≤◌, ◌<◌, ◌∙◌, ◌≡◌, ◌≢◌, ◌⊎◌, inl, inr, refl, some,
  List, [], ◌∷◌, ◌++◌, arith, length, All, lt→ltb, le→ltb,
}
use nolibc.Mem.{Mem, poke, write_all, CStr}
use nolibc.Mem.Laws.{SameOutside, SameOutside-terminated, CStr-write_all, write_all-append}
use nolibc.Str.Compare.Laws.{NonZero}
use nolibc.Stdlib.Decimal.{power_loop, divide_loop, digit_round, digits_loop, u64toa_r, utoa_r}
use nolibc.Stdlib.Decimal.Spec.{
  pow10, pow10_pos, pow10_mono, top_digit, pad, decimal, length-pad, IsDigit, value, Canonical,
  decimal-IsDigit, value-decimal, length-decimal, decimal-Canonical,
}

small_power : (p lim : ℕ) → 0 < p → 10 * p * lim < 2 ^ 64 → lim * 10 < 2 ^ 64
small_power zero lim h lt = absurd (omega arith)
small_power (suc p) lim h lt = omega arith

power_loop-pow10 : (k lim : ℕ) → pow10 k * lim < 2 ^ 64 → power_loop k lim ≡ pow10 k * lim
unfolding power_loop
power_loop-pow10 zero lim h = omega arith
power_loop-pow10 (suc k) lim h =
    let e : lim * 10 % 2 ^ 64 ≡ lim * 10 =
      omega (arith, small_power (pow10 k) lim (pow10_pos k) h) in
    rw e (power_loop-pow10 k (lim * 10) (omega arith) ∙ omega arith)

-- every power that the loop asks for fits
limit : (k : ℕ) → k ≤ 19 → power_loop k 1 ≡ pow10 k
limit k h = power_loop-pow10 k 1 (omega (arith, pow10_mono k 19 h)) ∙ omega arith

-- `q` subtractions leave the remainder
divide_loop-lem :
    (q fuel n p r dig : ℕ)
    → q < fuel
    → r < p
    → q * p + r ≡ n
    → divide_loop fuel n p dig ≡ some (r, dig + q)
unfolding divide_loop
divide_loop-lem q zero n p r dig h lt e = absurd (omega arith)
divide_loop-lem zero (suc fuel) n p r dig h lt e = ground arith
divide_loop-lem (suc q) (suc fuel) n p r dig h lt e =
    rw (le→ltb n p (omega arith))
      (divide_loop-lem q fuel (n - p) p r (dig + 1) (omega arith) lt (omega arith) ∙ ground arith)

quotient_le : (n p : ℕ) → 0 < p → n / p ≤ n
quotient_le n p h = grind arith

divided : (n p dig : ℕ) → 0 < p → divide_loop (suc n) n p dig ≡ some (n % p, dig + n / p)
divided n p dig h =
    divide_loop-lem (n / p) (suc n) n p (n % p) dig (omega (arith, quotient_le n p h)) (mod-lt n h)
      (div-add-mod' n p)

module _ (buffer : ℕ) where
  emit : (at : ℕ) (m : Mem) (n d : ℕ) → Mem × ℕ × ℕ
  emit at m n d = (poke m (buffer + d) (b'0' + n / pow10 at), n % pow10 at, d + 1)

  emitted :
      (at : ℕ) (m : Mem) (n d : ℕ)
      → at ≤ 19
      → n < pow10 (suc at)
      → (d ≢ 0) ⊎ ((pow10 at ≤ n) ⊎ (at ≡ 0))
      → digit_round at m buffer n d ≡ some (emit at m n d)
  unfolding digit_round emit
  emitted at m n d h lt when =
      let byte : (b'0' + n / pow10 at) % 256 ≡ b'0' + n / pow10 at =
        omega (arith, top_digit n (pow10 at) (pow10_pos at) lt) in
      rw (limit at h, divided n (pow10 at) 0 (pow10_pos at)) (ground (arith, byte))

  skipped :
      (at : ℕ) (m : Mem) (n : ℕ)
      → suc at ≤ 19
      → n < pow10 (suc at)
      → digit_round (suc at) m buffer n 0 ≡ some (m, n, 0)
  unfolding digit_round
  skipped at m n h lt = rw (limit (suc at) h) (ground arith)

  -- once a digit is written, all the others are
  loop-pad :
      (at : ℕ) (m : Mem) (n d p : ℕ)
      → at ≤ 19
      → n < pow10 (suc at)
      → (d ≢ 0) ⊎ ((pow10 at ≤ n) ⊎ (at ≡ 0))
      → p ≡ buffer + d
      → digits_loop at m buffer n d ≡ some (write_all m p (pad at n), d + suc at)
  unfolding digits_loop write_all emit
  loop-pad zero m n d p h lt when e =
      let one : n / 1 ≡ n = omega arith in
      rw (emitted zero m n d h lt when, one, ← e) (ground arith)
  loop-pad (suc at) m n d p h lt when e =
      rw (emitted (suc at) m n d h lt when, ← e)
        (loop-pad at (poke m p (b'0' + n / pow10 (suc at))) (n % pow10 (suc at)) (d + 1) (p + 1)
            (omega arith) (mod-lt n (pow10_pos (suc at))) (inl (omega arith)) (omega arith)
          ∙ ground arith)

  loop_skip :
      (at : ℕ) (m : Mem) (n : ℕ)
      → suc at ≤ 19
      → n < pow10 (suc at)
      → digits_loop (suc at) m buffer n 0 ≡ digits_loop at m buffer n 0
  unfolding digits_loop
  loop_skip at m n h lt = rw (skipped at m n h lt)

  loop-decimal :
      (at : ℕ) (m : Mem) (n : ℕ)
      → at ≤ 19
      → n < pow10 (suc at)
      → digits_loop at m buffer n 0
        ≡ some (write_all m buffer (decimal at n), length (decimal at n))
  loop-decimal zero m n h lt = loop-pad zero m n 0 buffer h lt (inr (inr refl)) (omega arith)
  loop-decimal (suc at) m n h lt = elim (dec_lt n (pow10 (suc at))) [
    | yes small ↦
        rw (lt→ltb n (pow10 (suc at)) small)
          (loop_skip at m n h small ∙ loop-decimal at m n (omega arith) small)
    | no large ↦
        rw (le→ltb n (pow10 (suc at)) (omega arith), length-pad (suc at) n)
          (loop-pad (suc at) m n 0 buffer h lt (inr (inl (omega arith))) (omega arith)
            ∙ ground arith)
  ]

-- the decimal notation of a 64-bit number
abbrev pub decimal64 : ℕ → List ℕ
decimal64 = decimal 19

-- `utoa_r` and `u64toa_r` are the same on 64 bits
pub u64toa_r-write_all :
    (m : Mem) (n buffer : ℕ)
    → n < 2 ^ 64
    → u64toa_r m n buffer ≡ some (write_all m buffer (decimal64 n ++ 0 ∷ []), length (decimal64 n))
unfolding u64toa_r write_all
u64toa_r-write_all m n buffer lt = rw (
  loop-decimal buffer 19 m n (omega arith) (omega arith),
  ← write_all-append m buffer (buffer + length (decimal64 n)) (decimal64 n) (0 ∷ []) refl,
)

pub utoa_r-u64toa_r : (m : Mem) (n buffer : ℕ) → utoa_r m n buffer ≡ u64toa_r m n buffer
unfolding utoa_r u64toa_r
utoa_r-u64toa_r m n buffer = refl

pub decimal64-NonZero : (n : ℕ) → n < 2 ^ 64 → NonZero (decimal64 n)
decimal64-NonZero n lt = nonzero (decimal64 n) (decimal-IsDigit 19 n (omega arith))
  where
    nonzero : (s : List ℕ) → All IsDigit s → NonZero s
    nonzero [] h = tt
    nonzero (c ∷ s) h = (omega arith, nonzero s h.1)

-- what `u64toa_r` leaves in the buffer: the canonical decimal notation, at most 20 digits and a zero
abbrev pub Written : Mem → ℕ → ℕ → Mem → ℕ → Type 0
Written m n buffer m' len =
    (s : List ℕ) × CStr m' buffer s
    × (len ≡ length s)
    × All IsDigit s
    × (value 0 s ≡ n)
    × Canonical s
    × (len ≤ 20)
    × SameOutside buffer (len + 1) m m'

-- For every 64-bit number u64toa_r returns; it leaves in the buffer, as a terminated string,
-- decimal digits with no leading zero whose value is the number, at most 20, writes no byte
-- behind the terminator and returns their count.
pub u64toa_r-Written :
    (m : Mem) (n buffer : ℕ)
    → n < 2 ^ 64
    → (m' : Mem) × (len : ℕ) × (u64toa_r m n buffer ≡ some (m', len)) × Written m n buffer m' len
u64toa_r-Written m n buffer lt = (
  write_all m buffer (decimal64 n ++ 0 ∷ []),
  length (decimal64 n),
  u64toa_r-write_all m n buffer lt,
  (
    decimal64 n,
    CStr-write_all m buffer (decimal64 n) (decimal64-NonZero n lt),
    refl,
    decimal-IsDigit 19 n (omega arith),
    value-decimal 19 n (omega arith),
    decimal-Canonical 19 n,
    (length-decimal 19 n).1,
    SameOutside-terminated m buffer (decimal64 n),
  ),
)
