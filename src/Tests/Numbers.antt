-- ===== src/Tests/Numbers.antt =====
-- Tests of the conversions of stdlib.h, in a memory of zeros and in one that holds some texts.
use nolibc.Prelude.{
  ℕ, zero, suc, ◌+◌, ◌-◌, ◌^◌, ◌≤◌, ◌<◌, ◌≡◌, inl, refl, some, List, [], ◌∷◌, ◌++◌, codes, arith,
  length, replicate, All,
}
use nolibc.Prelude.Words.{neg64}
use nolibc.Errno.{erange}
use nolibc.Ctype.{isspace}
use nolibc.Mem.{Mem, write_all, CStr}
use nolibc.Mem.Laws.{SameOutside}
use nolibc.Stdlib.Decimal.{u64toa_r, i64toa_r, itoa_r}
use nolibc.Stdlib.Decimal.Digits.{Written, u64toa_r-Written}
use nolibc.Stdlib.Decimal.Signed.{signed_decimal, i64toa_r-fits}
use nolibc.Stdlib.Hex.{utoh_r, u64toh_r}
use nolibc.Stdlib.Hex.Digits.{utoh_r-u64toh_r, Hex, u64toh_r-Hex}
use nolibc.Stdlib.Atol.{atol}
use nolibc.Stdlib.Atol.Value.{atol-itoa_r}
use nolibc.Stdlib.Strtox.{digit, accumulate, long_min, long_max, strtox, strtoull}
use nolibc.Stdlib.Strtox.Spec.{digit_value, IsDigitOf, value_in}
use nolibc.Stdlib.Strtox.Results.{
  IsPlainBase, IsBlank, strtox_fits, strtox_fits_negative, strtox-erange,
}
use nolibc.Stdlib.Strtox.Wrap.{strtoull_wraps}

abbrev blank_memory : Mem
blank_memory = λ _. 0

abbrev holding : List ℕ → Mem
unfolding write_all
holding s = write_all blank_memory 100 s

u64toa_r-Written_example :
    (m' : Mem) × (len : ℕ) × (u64toa_r blank_memory 18446744073709551615 100 ≡ some (m', len))
    × Written blank_memory 18446744073709551615 100 m' len
u64toa_r-Written_example = u64toa_r-Written blank_memory 18446744073709551615 100 (omega arith)

i64toa_r-fits_example :
    (m' : Mem) × (i64toa_r blank_memory long_min 100 ≡ some (m', length (signed_decimal long_min)))
    × CStr m' 100 (signed_decimal long_min)
    × (length (signed_decimal long_min) + 1 ≤ 21)
    × SameOutside 100 21 blank_memory m'
i64toa_r-fits_example = i64toa_r-fits blank_memory long_min 100 (omega arith)

utoh_r-u64toh_r_example : utoh_r blank_memory 0xc0ffee 100 ≡ u64toh_r blank_memory 0xc0ffee 100
utoh_r-u64toh_r_example = utoh_r-u64toh_r blank_memory 0xc0ffee 100 (omega arith)

u64toh_r-Hex_example :
    (m' : Mem) × (len : ℕ) × (u64toh_r blank_memory 0xc0ffee 100 ≡ (m', len))
    × Hex blank_memory 0xc0ffee 100 m' len
u64toh_r-Hex_example = u64toh_r-Hex blank_memory 0xc0ffee 100 (omega arith)

atol-itoa_r_example :
    (m' : Mem) × (len : ℕ) × (itoa_r blank_memory (2 ^ 64 - 17) 100 ≡ some (m', len))
    × (atol 30 m' 100 ≡ some (2 ^ 64 - 17))
atol-itoa_r_example = atol-itoa_r 30 blank_memory (2 ^ 64 - 17) 100 (omega arith) (omega arith)

seven : IsDigitOf 10 b'7'
unfolding digit
seven = (7, refl, omega arith)

five : IsDigitOf 10 b'5'
unfolding digit
five = (5, refl, omega arith)

nought : IsDigitOf 10 b'0'
unfolding digit
nought = (0, refl, omega arith)

ten : IsPlainBase 10
ten = omega arith

one-IsBlank : IsBlank (codes " ")
unfolding isspace
one-IsBlank = (refl, tt)

seventy_seven : value_in 10 0 (codes "77") ≡ 77
unfolding digit_value digit
seventy_seven = refl

strtox_fits_example :
    strtox 9 (holding (codes " 77")) 0 100 10 long_min long_max
    ≡ some (record { value = value_in 10 0 (codes "77"); endptr = 100 + 1 + 2; errno = 0 })
unfolding write_all
strtox_fits_example =
    strtox_fits 9 (holding (codes " 77")) 0 100 10 long_min long_max 0 b'7' (codes " ") (codes "7")
      ten (omega arith) one-IsBlank (seven, (seven, tt)) (inl refl) (omega arith) (omega arith)
      (omega (arith, seventy_seven))

strtox_fits_negative_example :
    strtox 9 (holding (codes " -77")) 0 100 10 long_min long_max
    ≡ some
        (record { value = neg64 (value_in 10 0 (codes "77")); endptr = 100 + 1 + 1 + 2; errno = 0 })
unfolding write_all
strtox_fits_negative_example =
    strtox_fits_negative 9 (holding (codes " -77")) 0 100 10 long_min long_max 0 b'7' (codes " ")
      (codes "7") ten (omega arith) one-IsBlank (seven, (seven, tt)) (inl refl) (omega arith)
      (omega arith) (omega arith) (omega (arith, seventy_seven))

strtox-erange_example : (5 < value_in 10 0 (codes "77")) × (◌≡◌ {A = ℕ} 5 5)
unfolding write_all
strtox-erange_example =
    strtox-erange 9 (holding (codes " 77")) 0 100 10 0 5 0 b'7' (codes " ") (codes "7") ten
      (omega arith) one-IsBlank (seven, (seven, tt)) (inl refl) (omega arith) (omega arith)
      (omega arith) (record { value = 5; endptr = 103; errno = erange }) too_large refl
  where
    too_large :
        strtox 9 (holding (codes " 77")) 0 100 10 0 5
        ≡ some (record { value = 5; endptr = 103; errno = erange })
    too_large = unfold strtox in refl

-- 5 * 10 ^ 19 is above ULLONG_MAX, and its remainder modulo 2 ^ 64 is not below 5 * 10 ^ 18.
abbrev zeros : List ℕ
zeros = replicate 18 b'0'

zeros-digits : All (IsDigitOf 10) (zeros ++ b'0' ∷ [])
zeros-digits = go 19
  where
    go : (n : ℕ) → All (IsDigitOf 10) (replicate n b'0')
    go zero = tt
    go (suc n) = (nought, go n)

leading_part : 5000000000000000000 ≡ value_in 10 0 (b'5' ∷ zeros)
unfolding digit_value digit
leading_part = refl

no_value : digit_value b'0' ≡ 0
unfolding digit_value digit
no_value = refl

strtoull_wraps_example :
    strtoull 30 (holding (codes "50000000000000000000")) 0 100 10
    ≡ some (record {
      value = accumulate 10 5000000000000000000 (digit_value b'0');
      endptr = 100 + (18 + 2);
      errno = 0;
    })
unfolding write_all
strtoull_wraps_example =
    strtoull_wraps 30 (holding (codes "50000000000000000000")) 0 100 10 0 b'5' b'0'
      5000000000000000000 zeros ten (omega arith) (five, zeros-digits) (inl refl) (omega arith)
      leading_part (omega arith) (omega (arith, no_value)) (omega (arith, no_value))

-- The same, run: no ERANGE, and a value below ULLONG_MAX.
wrapped :
    strtoull 30 (holding (codes "50000000000000000000")) 0 100 10
    ≡ some (record { value = 13106511852580896768; endptr = 120; errno = 0 })
unfolding strtoull strtox write_all
wrapped = refl

prefixes :
    (strtoull 30 (holding (codes "0x1f")) 0 100 0
      ≡ some (record { value = 31; endptr = 104; errno = 0 }))
    × (strtoull 30 (holding (codes "017")) 0 100 0
        ≡ some (record { value = 15; endptr = 103; errno = 0 }))
    × (strtoull 30 (holding (codes "\t+9z")) 0 100 0
        ≡ some (record { value = 9; endptr = 103; errno = 0 }))
unfolding strtoull strtox write_all
prefixes = (refl, refl, refl)
