-- ===== src/Getopt.antt =====
-- getopt.h. The state is what `getopt` keeps between calls: the global variables, and the static
-- `__optpos`. An `int` is its 32-bit pattern. A message for stderr is returned rather than printed.
-- `none` means that the fuel of the search through the option string ran out.
pub mod Machine
pub mod Search
pub mod CommandLine
pub mod Argument
pub mod Options
pub mod Calls
pub mod Refinement
pub mod Progress
use nolibc.Prelude.{
  ℕ, zero, suc, ◌+◌, ◌*◌, ◌%◌, ◌^◌, ◌-◌, not, ◌&&◌, ◌||◌, Option, none, some, ◌==◌, if◌then◌else◌,
  ◌>>=◌,
}
use nolibc.Prelude.Words.{le_s32, extend, char32}
use nolibc.Mem.{Mem}
use nolibc.Mem.Words.{load64}

pub record Getopt : Type 0 where
  pub optarg : ℕ
  pub optind : ℕ
  pub opterr : ℕ
  pub optopt : ℕ
  pub optpos : ℕ

-- the message printed, with the character that it names
pub data Message : Type 0 where
  silent : Message
  unrecognized : ℕ → Message
  requires : ℕ → Message

pub record Outcome : Type 0 where
  pub state : Getopt
  pub result : ℕ
  pub message : Message

abbrev pub outcome : Getopt → ℕ → Message → Outcome
outcome s r msg = record { state = s; result = r; message = msg }

abbrev pub minus_one : ℕ
minus_one = 2 ^ 32 - 1

-- `optind++`
abbrev pub next : Getopt → Getopt
next s = record s { optind = (s.optind + 1) % 2 ^ 32 }

-- `argv[i]`
abbrev pub argument : Mem → ℕ → ℕ → ℕ
argument m argv i = load64 m ((argv + 8 * extend i) % 2 ^ 64)

-- `do d = optstring[i++]; while (d && d != c)`: `d` and `i`
unfoldable pub option_loop : ℕ → Mem → ℕ → ℕ → ℕ → Option (ℕ × ℕ)
option_loop zero m optstring c i = none
option_loop (suc fuel) m optstring c i =
    let rest = option_loop fuel m optstring c (i + 1) in
    let d = m (optstring + i) in if not (d == 0) && not (d == c) then rest else some (d, i + 1)

-- the argument of an option that wants one: `optstring[i]` is the colon behind it
unfoldable pub take_argument : Mem → ℕ → ℕ → ℕ → Getopt → Getopt
take_argument m argv optstring i s =
    let here = argument m argv s.optind in
    if not (m (optstring + i + 1) == b':') || not (s.optpos == 0)
    then record (next s) {
      optarg = if s.optpos == 0 then here else (here + extend s.optpos) % 2 ^ 64;
      optpos = 0;
    }
    else record s { optarg = 0 }

-- what happens once the option character `c`, at `optchar`, has been taken off
unfoldable pub match_option : ℕ → Mem → ℕ → ℕ → ℕ → ℕ → ℕ → Getopt → Option Outcome
unfolding option_loop take_argument
match_option fuel m argc argv optstring c optchar s = do
  (d, i) ← option_loop fuel m optstring c 0
  let report = λ (msg : Message).
        if not (m optstring == b':') && not (s.opterr == 0) then msg else silent in
      let unknown = record s { optopt = char32 c } in
      let taken = take_argument m argv optstring i s in
      let missing = record taken { optopt = char32 c } in
      some (
        if not (d == c) || c == b':'
        then outcome unknown b'?' (report (unrecognized (m optchar)))
        else if not (m (optstring + i) == b':')
        then outcome s (char32 c) silent
        else if le_s32 taken.optind argc
        then outcome taken (char32 c) silent
        else if m optstring == b':'
        then outcome missing b':' silent
        else outcome missing b'?' (report (requires (m optchar))))

-- an element of `argv` that begins with a dash and is longer than that: take its next character
unfoldable pub step_option : ℕ → Mem → ℕ → ℕ → ℕ → Getopt → Option Outcome
unfolding match_option
step_option fuel m argc argv optstring s =
    let element = argument m argv s.optind in
    let pos = if s.optpos == 0 then 1 else s.optpos in
    let after = (pos + 1) % 2 ^ 32 in
    let optchar = (element + extend pos) % 2 ^ 64 in
    let s' =
      if m ((element + extend after) % 2 ^ 64) == 0
      then record (next s) { optpos = 0 }
      else record s { optpos = after } in
    let options = if m optstring == b'-' || m optstring == b'+' then optstring + 1 else optstring in
    match_option fuel m argc argv options (m optchar) optchar s'

unfoldable pub getopt : ℕ → Mem → ℕ → ℕ → ℕ → Getopt → Option Outcome
unfolding step_option
getopt fuel m argc argv optstring s0 =
    let s = if s0.optind == 0 then record s0 { optpos = 0; optind = 1 } else s0 in
    let element = argument m argv s.optind in
    let rest = step_option fuel m argc argv optstring s in
    if le_s32 argc s.optind || element == 0
    then some (outcome s minus_one silent)
    else if not (m element == b'-') && m optstring == b'-'
    then some (outcome (record (next s) { optarg = element }) 1 silent)
    else if not (m element == b'-')
    then some (outcome s minus_one silent)
    else if m (element + 1) == 0
    then some (outcome s minus_one silent)
    else if m (element + 1) == b'-' && m (element + 2) == 0
    then some (outcome (next s) minus_one silent)
    else rest
