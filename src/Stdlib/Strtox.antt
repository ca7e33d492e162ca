-- ===== src/Stdlib/Strtox.antt =====
-- `__strtox` of stdlib.h and the functions that call it with the limits of their types. An `intmax_t`
-- or `long` is its 64-bit pattern, `base` its 32-bit pattern. The result has the value, what is stored
-- through `endptr`, and `errno`.
pub mod Spec
pub mod Digits
pub mod Results
pub mod Wrap
use nolibc.Prelude.{
  ℕ, zero, suc, ◌+◌, ◌-◌, ◌*◌, ◌%◌, ◌^◌, Bool, true, false, not, ◌&&◌, ◌||◌, Option, none, some,
  List, [], ◌∷◌, codes, ◌==◌, ltb, leb, if◌then◌else◌, ◌>>=◌,
}
use nolibc.Prelude.Words.{neg64, is_neg32, char32}
use nolibc.Errno.{einval, erange}
use nolibc.Ctype.{isspace}
use nolibc.Mem.{Mem}

pub record Parsed : Type 0 where
  pub value : ℕ
  pub endptr : ℕ
  pub errno : ℕ

-- `while (isspace(*nptr)) nptr++`
unfoldable pub skip_spaces : ℕ → Mem → ℕ → Option ℕ
skip_spaces zero m nptr = none
skip_spaces (suc fuel) m nptr =
    let rest = skip_spaces fuel m (nptr + 1) in
    if isspace (char32 (m nptr)) then rest else some nptr

-- `strncmp(p, s, length) == 0` for a literal `s`
pub starts_with : Mem → ℕ → List ℕ → Bool
starts_with m p [] = true
starts_with m p (c ∷ s) = m p == c && starts_with m (p + 1) s

-- the base to read in, and where the digits begin
pub prefix : Mem → ℕ → ℕ → ℕ × ℕ
unfolding starts_with
prefix m nptr base =
    if (base == 0 || base == 16)
      && (starts_with m nptr (codes "0x") || starts_with m nptr (codes "0X"))
    then (16, nptr + 2)
    else if base == 0 && starts_with m nptr (codes "0")
    then (8, nptr + 1)
    else if base == 0
    then (10, nptr)
    else (base, nptr)

-- the digit that a character stands for
unfoldable pub digit : ℕ → Option ℕ
digit c =
    if leb b'0' c && leb c b'9'
    then some (c - b'0')
    else if leb b'a' c && leb c b'z'
    then some (c - b'a' + 10)
    else if leb b'A' c && leb c b'Z'
    then some (c - b'A' + 10)
    else none

-- what the loop over the digits leaves: `nptr`, `val` and `overflow`
pub record Scan : Type 0 where
  pub nptr : ℕ
  pub val : ℕ
  pub overflow : Bool

abbrev pub scan : ℕ → ℕ → Bool → Scan
scan p v o = record { nptr = p; val = v; overflow = o }

-- `val *= base; val += c`
abbrev pub accumulate : ℕ → ℕ → ℕ → ℕ
accumulate base val c = (val * base % 2 ^ 64 + c) % 2 ^ 64

pub digit_loop : ℕ → Mem → ℕ → ℕ → Scan → Option Scan
digit_loop zero m base limit s = none
digit_loop (suc fuel) m base limit s = if m s.nptr == 0 then some s else elim (digit (m s.nptr)) [
  | none ↦ some s
  | some c ↦
      let val = accumulate base s.val c in
      let rest =
        digit_loop fuel m base limit
          (scan (s.nptr + 1) val (s.overflow || ltb limit val || ltb val s.val)) in
      if leb base c then some s else rest
]

-- the code at the label `out`
pub finish : ℕ → Bool → ℕ → Scan → Parsed
finish errno neg limit s =
    let val = if s.overflow then limit else s.val in
    record {
      value = if neg then neg64 val else val;
      endptr = s.nptr;
      errno = if s.overflow then erange else errno;
    }

-- from the sign on
pub read_number : ℕ → Mem → ℕ → ℕ → ℕ → ℕ → ℕ → Option Parsed
read_number fuel m errno nptr base lower_limit upper_limit =
    let signed_ = not (lower_limit == 0) in
    let neg = m nptr == b'-' in
    let start = if m nptr == b'+' || neg then nptr + 1 else nptr in
    let limit = if signed_ && neg then neg64 lower_limit else upper_limit in
    let (base', digits) = prefix m start base in
    do s ← digit_loop fuel m base' limit (scan digits 0 false); some (finish errno neg limit s)

unfoldable pub strtox : ℕ → Mem → ℕ → ℕ → ℕ → ℕ → ℕ → Option Parsed
unfolding skip_spaces prefix digit digit_loop finish read_number isspace
strtox fuel m errno nptr base lower_limit upper_limit =
    if is_neg32 base || ltb 36 base
    then some (record { value = 0; endptr = nptr; errno = einval })
    else do
      start ← skip_spaces fuel m nptr
      read_number fuel m errno start base lower_limit upper_limit

-- `LONG_MIN`, and the same for `long long` and `intmax_t`
abbrev pub long_min : ℕ
long_min = 2 ^ 63

abbrev pub long_max : ℕ
long_max = 2 ^ 63 - 1

abbrev pub ulong_max : ℕ
ulong_max = 2 ^ 64 - 1

unfoldable pub strtol : ℕ → Mem → ℕ → ℕ → ℕ → Option Parsed
strtol fuel m errno nptr base = strtox fuel m errno nptr base long_min long_max

unfoldable pub strtoul : ℕ → Mem → ℕ → ℕ → ℕ → Option Parsed
strtoul fuel m errno nptr base = strtox fuel m errno nptr base 0 ulong_max

unfoldable pub strtoll : ℕ → Mem → ℕ → ℕ → ℕ → Option Parsed
strtoll fuel m errno nptr base = strtox fuel m errno nptr base long_min long_max

unfoldable pub strtoull : ℕ → Mem → ℕ → ℕ → ℕ → Option Parsed
strtoull fuel m errno nptr base = strtox fuel m errno nptr base 0 ulong_max

unfoldable pub strtoimax : ℕ → Mem → ℕ → ℕ → ℕ → Option Parsed
strtoimax fuel m errno nptr base = strtox fuel m errno nptr base long_min long_max

unfoldable pub strtoumax : ℕ → Mem → ℕ → ℕ → ℕ → Option Parsed
strtoumax fuel m errno nptr base = strtox fuel m errno nptr base 0 ulong_max
