-- ===== src/Prelude/Words.antt =====
-- Machine words. A value of a w-bit type is its bit pattern, a number below `2 ^ w`; a signed type
-- reads the patterns from `2 ^ (w - 1)` on as negative numbers.
use Prim.Native.Nat.{ℕ, ◌+◌, ◌-◌, ◌%◌, ◌^◌}
use mathlib.Core.Bool.{Bool}
use nolibc.Prelude.Tests.{ltb, leb, if◌then◌else◌}
use nolibc.Prelude.Int.{ℤ, pos, negsuc}

-- `a - b` on 32 bits, signed or unsigned
abbrev pub sub32 : ℕ → ℕ → ℕ
sub32 a b = (a + 2 ^ 32 - b) % 2 ^ 32

-- `-a`
abbrev pub neg32 : ℕ → ℕ
neg32 a = (2 ^ 32 - a) % 2 ^ 32

abbrev pub neg64 : ℕ → ℕ
neg64 a = (2 ^ 64 - a) % 2 ^ 64

-- `a <= b` on `int`
abbrev pub le_s32 : ℕ → ℕ → Bool
le_s32 a b = leb ((a + 2 ^ 31) % 2 ^ 32) ((b + 2 ^ 31) % 2 ^ 32)

-- `a < 0` on `int` and on `long`
abbrev pub is_neg32 : ℕ → Bool
is_neg32 a = leb (2 ^ 31) a

abbrev pub is_neg64 : ℕ → Bool
is_neg64 a = leb (2 ^ 63) a

-- the integer that a pattern stands for in a signed type
abbrev pub signed32 : ℕ → ℤ
signed32 a = if ltb a (2 ^ 31) then pos a else negsuc (2 ^ 32 - a - 1)

abbrev pub signed64 : ℕ → ℤ
signed64 a = if ltb a (2 ^ 63) then pos a else negsuc (2 ^ 64 - a - 1)

-- the pattern of an integer
abbrev pub wrap32 : ℤ → ℕ
wrap32 (pos n) = n % 2 ^ 32
wrap32 (negsuc n) = 2 ^ 32 - 1 - n % 2 ^ 32

abbrev pub wrap64 : ℤ → ℕ
wrap64 (pos n) = n % 2 ^ 64
wrap64 (negsuc n) = 2 ^ 64 - 1 - n % 2 ^ 64

-- an `int` converted to `long`
abbrev pub extend : ℕ → ℕ
extend a = if ltb a (2 ^ 31) then a else 2 ^ 64 - 2 ^ 32 + a

-- a `char`, which is signed, converted to `long` and to `int`
abbrev pub char64 : ℕ → ℕ
char64 c = if ltb c 128 then c else 2 ^ 64 - 256 + c

abbrev pub char32 : ℕ → ℕ
char32 c = if ltb c 128 then c else 2 ^ 32 - 256 + c
