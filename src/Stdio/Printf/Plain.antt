-- ===== src/Stdio/Printf/Plain.antt =====
-- `__nolibc_printf` on a format with no percent sign: the format goes to the callback in one piece.
use nolibc.Prelude.{
  ℕ, zero, suc, ◌+◌, ◌-◌, ◌%◌, ◌^◌, ◌<◌, ◌≡◌, ◌≢◌, ◌∙◌, ap, sym, refl, true, false, some, List, [],
  ◌∷◌, arith, ltb, if◌then◌else◌, length, All, ne→==,
}
use mathlib.Core.Path.{subst}
use nolibc.Mem.{CStr}
use nolibc.Sys.World.{World}
use nolibc.Stdio.Printf.{
  Places, Callback, Printer, round, flush, after_flush, pad_loop, printf_loop, nolibc_printf,
}

-- what is handed over at a time
abbrev pub within : ℕ → ℕ → ℕ
within len n = if ltb len n then len else n

nothing_less : (n : ℕ) → 0 - n ≡ 0
nothing_less n = omega arith

-- the state behind a text of `len` bytes that the callback took
abbrev pub sent : {K : Type 0} → ℕ → World K → ℕ → Printer K → Printer K
sent len w' sink' p = record p {
  world = w';
  sink = sink';
  room = p.room - within len p.room;
  written = (p.written + len) % 2 ^ 32;
}

abbrev pub ended : {K : Type 0} → Printer K → Printer K
ended p = record p { escape = true; lpref = 0 }

module _ {K : Type 0} (cb : Callback K) (at : Places) (scan : ℕ) (w' : World K) (sink' : ℕ) where
  -- a text without a width goes out in one call
  pub flush_once :
      (outstr len : ℕ) (p : Printer K)
      → p.room ≢ 0
      → cb p.sink outstr (within len p.room) p.world ≡ some (w', sink', 0)
      → flush cb at scan outstr len 0 p ≡ some (true, sent len w' sink' p)
  unfolding flush pad_loop
  flush_once outstr len p nz called =
      rw (ne→== p.room 0 nz) (rw (nothing_less (within len p.room)) (rw called refl))

  -- a character that is neither the end nor a percent sign is passed over
  pub round-plain :
      (p : Printer K) (c : ℕ)
      → p.escape ≡ false
      → p.world.mem (p.fmt + p.ofs) ≡ c
      → c ≢ 0
      → c ≢ b'%'
      → round cb at scan p ≡ some (true, record p { ofs = p.ofs + 1 })
  unfolding round
  round-plain p c e h nz np = rw e (rw h (rw (ne→== c 0 nz) (rw (ne→== c b'%' np) refl)))

  -- at the end the text behind `fmt` is flushed
  pub round_end :
      (p : Printer K)
      → p.escape ≡ false
      → p.world.mem (p.fmt + p.ofs) ≡ 0
      → p.room ≢ 0
      → cb p.sink p.fmt (within p.ofs p.room) p.world ≡ some (w', sink', 0)
      → round cb at scan p ≡ some (false, sent p.ofs w' sink' (ended p))
  unfolding round after_flush
  round_end p e z nz called =
      let same : p.ofs + 1 - 1 ≡ p.ofs = omega arith in
      rw e (rw z (rw same (rw (flush_once p.fmt p.ofs (ended p) nz called) refl)))

  -- the loop runs to the end of the text
  printf_loop-plain :
      (s : List ℕ) (fuel q len : ℕ) (p : Printer K)
      → q ≡ p.fmt + p.ofs
      → len ≡ p.ofs + length s
      → length s < fuel
      → p.escape ≡ false
      → CStr p.world.mem q s
      → All (λ c. c ≢ b'%') s
      → p.room ≢ 0
      → cb p.sink p.fmt (within len p.room) p.world ≡ some (w', sink', 0)
      → printf_loop cb at scan fuel p ≡ some (sent len w' sink' (ended (record p { ofs = len })))
  unfolding printf_loop
  printf_loop-plain s zero q len p eq el f e h a nz called = absurd (omega arith)
  printf_loop-plain [] (suc fuel) q len p eq el f e h a nz called =
      let here : len ≡ p.ofs = omega arith in
      let taken =
        subst (λ o. cb p.sink p.fmt (within o p.room) p.world ≡ some (w', sink', 0)) here called in
      rw (round_end p e (ap p.world.mem (sym eq) ∙ h) nz taken)
        (ap (λ o. some (sent o w' sink' (ended (record p { ofs = o })))) (sym here))
  printf_loop-plain (c ∷ s) (suc fuel) q len p eq el f e (hc, cz, h) (ac, a) nz called =
      rw (round-plain p c e (ap p.world.mem (sym eq) ∙ hc) cz ac) (
        printf_loop-plain s fuel (q + 1) len (record p { ofs = p.ofs + 1 }) (omega arith)
          (omega arith) (omega arith) e h a nz called)

-- For a format with no percent sign and a limit above 0, given more fuel than the format has bytes and
-- a callback that takes it, `__nolibc_printf` passes on the world and the state that the callback leaves
-- for the format cut to the limit, and returns the length of the format modulo 2 ^ 32.
pub nolibc_printf-plain :
    {K : Type 0} (cb : Callback K) (at : Places) (scan : ℕ) (fuel state n fmt : ℕ) (args : List ℕ)
    (w w' : World K) (state' : ℕ) (s : List ℕ)
    → length s < fuel
    → CStr w.mem fmt s
    → All (λ c. c ≢ b'%') s
    → n ≢ 0
    → cb state fmt (within (length s) n) w ≡ some (w', state', 0)
    → nolibc_printf cb at scan fuel state n fmt args w ≡ some (w', state', length s % 2 ^ 32)
unfolding nolibc_printf
nolibc_printf-plain cb at scan fuel state n fmt args w w' state' s f h a nz called =
    let start : Printer _ = record {
      world = w;
      sink = state;
      fmt = fmt;
      ofs = 0;
      escape = false;
      lpref = 0;
      room = n;
      written = 0;
      args = args;
    } in
    let total : 0 + length s ≡ length s = omega arith in
    rw
      (printf_loop-plain cb at scan w' state' s fuel fmt (length s) start (omega arith)
        (omega arith) f refl h a nz called)
      (rw total refl)
