-- ===== src/Stdio/Printf.antt =====
-- `__nolibc_printf` of stdio.h with its two callbacks, the functions of the printf family over it,
-- `strerror` and `perror`. The arguments are a list of words. `scan` is the fuel for the strings that
-- are printed and for the writes; `none` means that fuel ran out or that an argument is missing.
pub mod Family
pub mod Plain
pub mod Bounded
pub mod Pieces
pub mod Conversions
pub mod Handed
pub mod Sink
pub mod Flush
pub mod Queued
pub mod Rounds
pub mod Widths
pub mod Directives
pub mod Format
pub mod Output
pub mod Nonzero
pub mod Buffer
use nolibc.Prelude.{
  ℕ, zero, suc, ◌+◌, ◌-◌, ◌*◌, ◌%◌, ◌^◌, Bool, true, false, not, ◌&&◌, ◌||◌, Option, none, some,
  List, [], ◌∷◌, ◌==◌, ltb, leb, if◌then◌else◌, ◌>>=◌,
}
use nolibc.Prelude.Words.{extend}
use nolibc.Mem.{Mem, poke}
use nolibc.Str.Scan.{strlen}
use nolibc.Stdlib.Decimal.{u64toa_r, i64toa_r}
use nolibc.Stdlib.Hex.{u64toh_r}
use nolibc.Sys.World.{World}

-- where the linker and the compiler place the local and static objects: `tmpbuf`, the literals " " and
-- "(null)", and the buffer of `strerror`, which begins with "errno="
pub record Places : Type 0 where
  pub tmpbuf : ℕ
  pub space : ℕ
  pub null_text : ℕ
  pub strerror_buf : ℕ

-- what a callback does with its state, a text and its size: the new world, state and result
abbrev pub Callback : Type 0 → Type 0
Callback K = ℕ → ℕ → ℕ → World K → Option (World K × ℕ × ℕ)

-- the digits of the width: the width, the character behind them, and `ofs`
unfoldable pub width_loop : ℕ → Mem → ℕ → ℕ → ℕ → ℕ → Option (ℕ × ℕ × ℕ)
width_loop zero m fmt c width ofs = none
width_loop (suc fuel) m fmt c width ofs =
    let width' = (width * 10 % 2 ^ 32 + (c - b'0')) % 2 ^ 32 in
    let rest = width_loop fuel m fmt (m (fmt + ofs)) width' (ofs + 1) in
    if leb b'0' c && leb c b'9' then rest else some (width, c, ofs)

-- `lpref > 1` on a signed `char`
abbrev is_long_long : ℕ → Bool
is_long_long lpref = ltb 1 lpref && ltb lpref 128

-- the value of a numeric argument, which is sign-extended for `d`
unfoldable pub numeric : ℕ → ℕ → ℕ → ℕ
numeric c lpref arg =
    if c == b'p'
    then arg
    else if not (lpref == 0)
    then arg
    else if c == b'd'
    then extend (arg % 2 ^ 32)
    else arg % 2 ^ 32

-- the text of a numeric argument, written to `tmpbuf`
unfoldable pub convert : Mem → ℕ → ℕ → ℕ → Option Mem
convert m tmpbuf c v =
    if c == b'c'
    then some (poke (poke m tmpbuf (v % 256)) (tmpbuf + 1) 0)
    else if c == b'd'
    then (do (m', _) ← i64toa_r m v tmpbuf; some m')
    else if c == b'u'
    then (do (m', _) ← u64toa_r m v tmpbuf; some m')
    else if c == b'p'
    then (let (m', _) = u64toh_r (poke (poke m tmpbuf b'0') (tmpbuf + 1) b'x') v (tmpbuf + 2) in
        some m')
    else (let (m', _) = u64toh_r m v tmpbuf in some m')

unfoldable pub strerror : Mem → ℕ → ℕ → Option (Mem × ℕ)
strerror m strerror_buf errnum = do
  (m', _) ← i64toa_r m (extend errnum) (strerror_buf + 6)
  some (m', strerror_buf)

-- what the character behind the width asks for: a text to print, with the arguments left; nothing, as
-- for a second percent sign; or a modifier or the end of the format, with the new `lpref`
pub data Directive : Type 0 where
  emit : Mem → ℕ → List ℕ → Directive
  queue : Directive
  modifier : ℕ → Directive

unfoldable pub numeric_directive : Places → ℕ → ℕ → Mem → List ℕ → Option Directive
unfolding numeric convert
numeric_directive at c lpref m [] = none
numeric_directive at c lpref m (arg ∷ args) = do
  m' ← convert m at.tmpbuf c (numeric c lpref arg)
  some (emit m' at.tmpbuf args)

unfoldable pub string_directive : Places → Mem → List ℕ → Option Directive
string_directive at m [] = none
string_directive at m (arg ∷ args) = some (emit m (if arg == 0 then at.null_text else arg) args)

unfoldable pub directive : Places → ℕ → ℕ → Mem → ℕ → List ℕ → Option Directive
unfolding numeric_directive string_directive
directive at c lpref m errno args =
    if c == b'c' || c == b'd' || c == b'u' || c == b'x' || c == b'p'
    then numeric_directive at c lpref m args
    else if c == b's'
    then string_directive at m args
    else if c == b'm'
    then (do (m', text) ← strerror m at.strerror_buf errno; some (emit m' text args))
    else if c == b'%'
    then some queue
    else some (modifier (if c == b'l' then (lpref + 1) % 256 else if c == b'j' then 2 else lpref))

-- the state of the outer loop: the world, that of the callback, and the local variables
pub record Printer (K : Type 0) : Type 0 where
  pub world : World K
  pub sink : ℕ
  pub fmt : ℕ
  pub ofs : ℕ
  pub escape : Bool
  pub lpref : ℕ
  pub room : ℕ
  pub written : ℕ
  pub args : List ℕ

module _ {K : Type 0} (cb : Callback K) (at : Places) (scan : ℕ) where
  -- `while (width-- > w)`, with `k` rounds left; a callback that fails ends the loop
  unfoldable pub pad_loop : ℕ → Printer K → Option (Printer K)
  pad_loop zero p = some p
  pad_loop (suc k) p = do
    (w, sink, ret) ← cb p.sink at.space 1 p.world
    let done = record p { world = w; sink = sink } in
        let rest = pad_loop k (record done { written = (p.written + 1) % 2 ^ 32 }) in
        if ret == 0 then rest else some done

  -- `flush_str`: whether the text went out, and the state behind it
  unfoldable pub flush : ℕ → ℕ → ℕ → Printer K → Option (Bool × Printer K)
  unfolding pad_loop
  flush outstr len width p =
      let total = λ (q : Printer K). record q { written = (q.written + len) % 2 ^ 32 } in
      if p.room == 0 then some (true, total p) else (do
        let w = if ltb len p.room then len else p.room in
            (do
              padded ← pad_loop (width - w) (record p { room = p.room - w })
              (world, sink, ret) ← cb padded.sink outstr w padded.world
              let sent = record padded { world = world; sink = sink } in
                  some (if ret == 0 then (true, total sent) else (false, sent))))

  -- `do_escape`: the next character of the format is the first behind the current one
  abbrev advance : ℕ → Printer K → Printer K
  advance ofs p = record p { fmt = p.fmt + ofs; ofs = 0 }

  -- the body of the outer loop: whether the loop goes on, and the state behind it
  unfoldable pub after_flush : ℕ → ℕ → Option (Bool × Printer K) → Option (Bool × Printer K)
  after_flush c ofs flushed = do
    (sent, p) ← flushed
    some (if sent && not (c == 0) then (true, advance ofs p) else (false, p))

  -- behind a percent sign, with the character `c` behind the width
  unfoldable pub escaped : ℕ → ℕ → ℕ → Printer K → Option (Bool × Printer K)
  unfolding directive flush after_flush
  escaped width c ofs p = do
    d ← directive at c p.lpref p.world.mem p.world.errno p.args
    elim d [
      | emit m outstr args ↦ (do
        len ← strlen scan m outstr
        let q = record p { world = record p.world { mem = m }; escape = false; args = args } in
            after_flush c ofs (flush outstr len width q))
      | queue ↦ some (true, record p { escape = false; ofs = ofs })
      | modifier lpref ↦
          let q = record p { lpref = lpref; escape = true } in
          some (if c == 0 then (false, q) else (true, advance ofs q))
    ]

  unfoldable pub round : Printer K → Option (Bool × Printer K)
  unfolding escaped flush after_flush width_loop
  round p =
      let c = p.world.mem (p.fmt + p.ofs) in
      let ofs = p.ofs + 1 in
      if p.escape
      then (do
        (width, c', ofs') ← width_loop scan p.world.mem p.fmt c 0 ofs
        escaped width c' ofs' p)
      else if c == 0 || c == b'%'
      then after_flush c ofs (flush p.fmt (ofs - 1) 0 (record p { escape = true; lpref = 0 }))
      else some (true, record p { ofs = ofs })

  unfoldable pub printf_loop : ℕ → Printer K → Option (Printer K)
  unfolding round
  printf_loop zero p = none
  printf_loop (suc fuel) p = do
    (more, p') ← round p
    let rest = printf_loop fuel p' in if more then rest else some p'

  -- `state` is the callback's, `n` the limit on what it is handed
  unfoldable pub nolibc_printf : ℕ → ℕ → ℕ → ℕ → List ℕ → World K → Option (World K × ℕ × ℕ)
  unfolding printf_loop
  nolibc_printf fuel state n fmt args w = do
    p ← printf_loop fuel (record {
      world = w;
      sink = state;
      fmt = fmt;
      ofs = 0;
      escape = false;
      lpref = 0;
      room = n;
      written = 0;
      args = args;
    })
    some (p.world, p.sink, p.written)
