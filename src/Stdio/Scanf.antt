-- ===== src/Stdio/Scanf.antt =====
-- `vsscanf` and `sscanf` of stdio.h. The arguments are the pointers through which the numbers are
-- stored. `none` means that fuel ran out or that an argument is missing.
pub mod Numbers
pub mod Patterns
pub mod Reading
pub mod Format
pub mod Roundtrip
use nolibc.Prelude.{
  ℕ, zero, suc, ◌+◌, ◌-◌, ◌%◌, ◌^◌, Bool, true, false, ◌||◌, Option, none, some, List, [], ◌∷◌,
  ◌==◌, if◌then◌else◌, ◌>>=◌,
}
use nolibc.Prelude.Words.{char32}
use nolibc.Errno.{eilseq}
use nolibc.Ctype.{isspace}
use nolibc.Mem.{Mem}
use nolibc.Mem.Words.{store32, store64}
use nolibc.Stdlib.Strtox.{Parsed, skip_spaces, strtoll, strtoull, strtoul}

pub record Scanner : Type 0 where
  pub mem : Mem
  pub errno : ℕ
  pub str : ℕ
  pub format : ℕ
  pub matches : ℕ
  pub args : List ℕ

-- the modifiers behind a percent sign: `lpref`, and the format behind them
unfoldable modifiers : Mem → ℕ → ℕ × ℕ
modifiers m format =
    if m format == b'l'
    then if m (format + 1) == b'l' then (2, format + 2) else (1, format + 1)
    else (0, format)

-- the number is stored through the next argument, as an `int` or as a word
unfoldable store_number : Bool → ℕ → Scanner → Parsed → Option (Bool × Scanner)
store_number wide format s number = elim s.args [
  | [] ↦ none
  | target ∷ args ↦ some (
    true,
    record {
      mem = if wide then store64 s.mem target number.value else store32 s.mem target number.value;
      errno = number.errno;
      str = number.endptr;
      format = format + 1;
      matches = (s.matches + 1) % 2 ^ 32;
      args = args;
    },
  )
]

-- a pattern: whether the loop goes on, and the state behind it
unfoldable pattern_at : ℕ → Scanner → Option (Bool × Scanner)
unfolding modifiers store_number
pattern_at fuel s =
    let (lpref, format) = modifiers s.mem (s.format + 1) in
    let c = s.mem format in
    if c == b'%'
    then some (
        if s.mem s.str == b'%'
        then (true, record s { str = s.str + 1; format = format + 1 })
        else (false, record s { format = format }))
    else if c == b'd'
    then (do
      number ← strtoll fuel s.mem s.errno s.str 10
      store_number (if lpref == 0 then false else true) format s number)
    else if c == b'u' || c == b'x' || c == b'X'
    then (do
      number ← strtoull fuel s.mem s.errno s.str (if c == b'u' then 10 else 16)
      store_number (if lpref == 0 then false else true) format s number)
    else if c == b'p'
    then (do number ← strtoul fuel s.mem s.errno s.str 16; store_number true format s number)
    else some (false, record s { errno = eilseq; format = format })

unfoldable scan_round : ℕ → Scanner → Option (Bool × Scanner)
unfolding pattern_at isspace skip_spaces
scan_round fuel s =
    let c = s.mem s.format in
    if c == b'%'
    then pattern_at fuel s
    else if c == 0
    then some (false, s)
    else if isspace (char32 c)
    then (do
      format ← skip_spaces fuel s.mem s.format
      str ← skip_spaces fuel s.mem s.str
      some (true, record s { format = format; str = str }))
    else if c == s.mem s.str
    then some (true, record s { format = s.format + 1; str = s.str + 1 })
    else some (false, record s { matches = if s.matches == 0 then 2 ^ 32 - 1 else s.matches })

unfoldable scan_loop : ℕ → Scanner → Option Scanner
unfolding scan_round
scan_loop zero s = none
scan_loop (suc fuel) s = do
  (more, s') ← scan_round (suc fuel) s
  let rest = scan_loop fuel s' in if more then rest else some s'

-- the memory, `errno` and the number of matches
unfoldable pub vsscanf : ℕ → Mem → ℕ → ℕ → ℕ → List ℕ → Option (Mem × ℕ × ℕ)
unfolding scan_loop
vsscanf fuel m errno str format args = do
  s ←
      scan_loop fuel
        (record { mem = m; errno = errno; str = str; format = format; matches = 0; args = args })
  some (s.mem, s.errno, s.matches)

unfoldable pub sscanf : ℕ → Mem → ℕ → ℕ → ℕ → List ℕ → Option (Mem × ℕ × ℕ)
sscanf fuel m errno str format args = vsscanf fuel m errno str format args
