-- ===== src/Str/Case.antt =====
-- `tolower` and `toupper` of string.h. An `int` is its 32-bit pattern.
use nolibc.Prelude.{ℕ, ◌+◌, ◌-◌, ◌%◌, ◌^◌, ◌<◌, ◌≡◌, ◌&&◌, true, arith, if◌then◌else◌}
use nolibc.Prelude.Words.{sub32, le_s32}
use nolibc.Ctype.{isupper, islower, isalpha}

unfoldable pub tolower : ℕ → ℕ
tolower c = if le_s32 b'A' c && le_s32 c b'Z' then (sub32 c b'A' + b'a') % 2 ^ 32 else c

unfoldable pub toupper : ℕ → ℕ
toupper c = if le_s32 b'a' c && le_s32 c b'z' then (sub32 c b'a' + b'A') % 2 ^ 32 else c

module _ (c : ℕ) (range : c < 2 ^ 32) where
  -- For every int, tolower changes just the upper-case letters of ctype.h and toupper the
  -- lower-case ones; toupper brings an upper-case letter back from tolower, and tolower a
  -- lower-case letter from toupper; toupper after tolower is toupper alone, and tolower after
  -- toupper is tolower alone; and tolower keeps isalpha.
  pub tolower-toupper :
      (tolower c ≡ (if isupper c then c + 32 else c))
      × (toupper c ≡ (if islower c then c - 32 else c))
      × (isupper c ≡ true → toupper (tolower c) ≡ c)
      × (islower c ≡ true → tolower (toupper c) ≡ c)
      × (toupper (tolower c) ≡ toupper c)
      × (tolower (toupper c) ≡ tolower c)
      × (isalpha (tolower c) ≡ isalpha c)
  unfolding tolower toupper isupper islower isalpha
  tolower-toupper = (
    ground arith,
    ground arith,
    λ up. ground arith,
    λ low. ground arith,
    ground arith,
    ground arith,
    ground arith,
  )
