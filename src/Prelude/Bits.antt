-- ===== src/Prelude/Bits.antt =====
-- Laws of `bit_and`, `bit_or` and `bit_xor` at variables: one equation for the lowest digit of each,
-- and from it what a mask of ones keeps and what a shifted number adds.
use Prim.Native.Nat.{
  ℕ, zero, suc, ◌+◌, ◌-◌, ◌^◌, ◌*◌, ◌/◌, ◌%◌, ◌≤◌, ◌<◌, min, max, differ, digits, bitwise, bit_and,
  bit_or, bit_xor, bit_and-bitwise, bit_or-bitwise, bit_xor-bitwise,
}
use mathlib.Core.Path.{◌≡◌, refl, sym, ◌∙◌}
use native.Mathlib.Omega.{arith}

module _ (z : ℕ → ℕ) (f : ℕ → ℕ → ℕ) where
  -- the count of digits to go does not matter once it covers the first number
  digits_enough : (n m a b : ℕ) → a ≤ n → a ≤ m → digits z f n a b ≡ digits z f m a b
  digits_enough zero zero a b p q = refl
  digits_enough zero (suc m) zero b p q = refl
  digits_enough zero (suc m) (suc a) b p q = absurd (omega arith)
  digits_enough (suc n) zero zero b p q = refl
  digits_enough (suc n) zero (suc a) b p q = absurd (omega arith)
  digits_enough (suc n) (suc m) zero b p q = refl
  digits_enough (suc n) (suc m) (suc a) b p q =
      omega (arith, digits_enough n m (suc a / 2) (b / 2) (omega arith) (omega arith))

  lowest_digit :
      (a b : ℕ)
      → bitwise z f (suc a) b ≡ bitwise z f (suc a / 2) (b / 2) * 2 + f (suc a % 2) (b % 2)
  lowest_digit a b =
      omega (arith, digits_enough a (suc a / 2) (suc a / 2) (b / 2) (omega arith) (omega arith))

zero-bit_and : (b : ℕ) → bit_and 0 b ≡ 0
zero-bit_and b = bit_and-bitwise 0 b

zero-bit_or : (b : ℕ) → bit_or 0 b ≡ b
zero-bit_or b = bit_or-bitwise 0 b

zero-bit_xor : (b : ℕ) → bit_xor 0 b ≡ b
zero-bit_xor b = bit_xor-bitwise 0 b

pub bit_and_digit : (a b : ℕ) → bit_and a b ≡ bit_and (a / 2) (b / 2) * 2 + min (a % 2) (b % 2)
bit_and_digit zero b = omega (arith, zero-bit_and b, zero-bit_and (b / 2))
bit_and_digit (suc a) b = omega (
  arith,
  bit_and-bitwise (suc a) b,
  bit_and-bitwise (suc a / 2) (b / 2),
  lowest_digit (λ b. zero) min a b,
)

pub bit_or_digit : (a b : ℕ) → bit_or a b ≡ bit_or (a / 2) (b / 2) * 2 + max (a % 2) (b % 2)
bit_or_digit zero b = omega (arith, zero-bit_or b, zero-bit_or (b / 2))
bit_or_digit (suc a) b = omega (
  arith,
  bit_or-bitwise (suc a) b,
  bit_or-bitwise (suc a / 2) (b / 2),
  lowest_digit (λ b. b) max a b,
)

pub bit_xor_digit : (a b : ℕ) → bit_xor a b ≡ bit_xor (a / 2) (b / 2) * 2 + differ (a % 2) (b % 2)
bit_xor_digit zero b = omega (arith, zero-bit_xor b, zero-bit_xor (b / 2))
bit_xor_digit (suc a) b = omega (
  arith,
  bit_xor-bitwise (suc a) b,
  bit_xor-bitwise (suc a / 2) (b / 2),
  lowest_digit (λ b. b) differ a b,
)

-- the `k` lowest digits; the number of `k` ones; a number with its `k` lowest digits gone, or with `k`
-- zeros put behind it
abbrev pub low : ℕ → ℕ → ℕ
low zero a = 0
low (suc k) a = low k (a / 2) * 2 + a % 2

abbrev pub ones : ℕ → ℕ
ones zero = 0
ones (suc k) = ones k * 2 + 1

abbrev pub high : ℕ → ℕ → ℕ
high zero a = a
high (suc k) a = high k (a / 2)

abbrev pub shifted : ℕ → ℕ → ℕ
shifted zero a = a
shifted (suc k) a = shifted k a * 2

bit_and-zero_count : (n a : ℕ) → a ≤ n → bit_and a 0 ≡ 0
bit_and-zero_count n zero h = refl
bit_and-zero_count zero (suc a) h = absurd (omega arith)
bit_and-zero_count (suc n) (suc a) h =
    omega (arith, bit_and_digit (suc a) 0, bit_and-zero_count n (suc a / 2) (omega arith))

bit_or-zero_count : (n a : ℕ) → a ≤ n → bit_or a 0 ≡ a
bit_or-zero_count n zero h = refl
bit_or-zero_count zero (suc a) h = absurd (omega arith)
bit_or-zero_count (suc n) (suc a) h =
    omega (arith, bit_or_digit (suc a) 0, bit_or-zero_count n (suc a / 2) (omega arith))

-- a mask of ones keeps the lowest digits
pub bit_and-ones : (k a : ℕ) → bit_and a (ones k) ≡ low k a
bit_and-ones zero a = bit_and-zero_count a a (omega arith)
bit_and-ones (suc k) a =
    let half : (ones k * 2 + 1) / 2 ≡ ones k = omega arith in
    bit_and_digit a (ones k * 2 + 1) ∙ rw half (omega (arith, bit_and-ones k (a / 2)))

-- a mask with zeros behind it works on the number without its lowest digits
pub bit_and-shifted : (k a b : ℕ) → bit_and a (shifted k b) ≡ shifted k (bit_and (high k a) b)
bit_and-shifted zero a b = refl
bit_and-shifted (suc k) a b =
    let half : shifted k b * 2 / 2 ≡ shifted k b = omega arith in
    bit_and_digit a (shifted k b * 2) ∙ rw half (omega (arith, bit_and-shifted k (a / 2) b))

-- in the place of zeros `bit_or` adds
pub bit_or-shifted : (k a b : ℕ) → b ≤ ones k → bit_or (shifted k a) b ≡ shifted k a + b
bit_or-shifted zero a zero h = omega (arith, bit_or-zero_count a a (omega arith))
bit_or-shifted zero a (suc b) h = absurd (omega arith)
bit_or-shifted (suc k) a b h =
    let half : shifted k a * 2 / 2 ≡ shifted k a = omega arith in
    bit_or_digit (shifted k a * 2) b
    ∙ rw half (omega (arith, bit_or-shifted k a (b / 2) (omega arith)))

differ-zero : (a b : ℕ) → differ a b ≡ 0 → a ≡ b
differ-zero zero b h = sym h
differ-zero (suc a) zero h = h
differ-zero (suc a) (suc b) h = omega (arith, differ-zero a b h)

bit_xor-zero_count : (n a b : ℕ) → a ≤ n → bit_xor a b ≡ 0 → a ≡ b
bit_xor-zero_count n zero b le h = omega (arith, zero-bit_xor b)
bit_xor-zero_count zero (suc a) b le h = absurd (omega arith)
bit_xor-zero_count (suc n) (suc a) b le h =
    let split = sym h ∙ bit_xor_digit (suc a) b in
    let upper = bit_xor-zero_count n (suc a / 2) (b / 2) (omega arith) (omega arith) in
    let lower = differ-zero (suc a % 2) (b % 2) (omega arith) in omega arith

-- numbers whose `bit_xor` is 0 are equal
pub bit_xor-zero : (a b : ℕ) → bit_xor a b ≡ 0 → a ≡ b
bit_xor-zero a b = bit_xor-zero_count a a b (omega arith)

pub low_byte : (a : ℕ) → bit_and a 0xff ≡ a % 256
low_byte a = bit_and-ones 8 a ∙ omega arith

pub low_seven : (a : ℕ) → bit_and a 0x7f ≡ a % 128
low_seven a = bit_and-ones 7 a ∙ omega arith

pub low_twelve : (a : ℕ) → bit_and a 0xfff ≡ a % 4096
low_twelve a = bit_and-ones 12 a ∙ omega arith

-- all but the lowest byte of a 32-bit number
pub upper_bytes : (a : ℕ) → a < 2 ^ 32 → bit_and a (2 ^ 32 - 1 - 0xff) ≡ a / 256 * 256
upper_bytes a h = bit_and-shifted 8 a (ones 24) ∙ omega (arith, bit_and-ones 24 (high 8 a))

-- `bit_or` adds in the place of zeros on the other side too
pub bit_or-shifted_right : (k a b : ℕ) → b ≤ ones k → bit_or b (shifted k a) ≡ shifted k a + b
bit_or-shifted_right zero a zero h = omega (arith, zero-bit_or a)
bit_or-shifted_right zero a (suc b) h = absurd (omega arith)
bit_or-shifted_right (suc k) a b h =
    let half : shifted k a * 2 / 2 ≡ shifted k a = omega arith in
    bit_or_digit b (shifted k a * 2)
    ∙ rw half (omega (arith, bit_or-shifted_right k a (b / 2) (omega arith)))

differ_bound : (a b : ℕ) → a < 2 → b < 2 → differ a b < 2
differ_bound zero b h l = l
differ_bound (suc a) zero h l = h
differ_bound (suc a) (suc b) h l = differ_bound a b (omega arith) (omega arith)

-- no more digits than the two numbers have
pub bit_xor_bound : (k a b : ℕ) → a ≤ ones k → b ≤ ones k → bit_xor a b ≤ ones k
bit_xor_bound zero zero b h l = omega (arith, zero-bit_xor b)
bit_xor_bound zero (suc a) b h l = absurd (omega arith)
bit_xor_bound (suc k) a b h l = omega (
  arith,
  bit_xor_digit a b,
  differ_bound (a % 2) (b % 2) (omega arith) (omega arith),
  bit_xor_bound k (a / 2) (b / 2) (omega arith) (omega arith),
)
