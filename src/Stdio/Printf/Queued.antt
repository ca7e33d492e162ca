-- ===== src/Stdio/Printf/Queued.antt =====
-- The loop of `__nolibc_printf` between two directives: what is queued, what is left of the format, and
-- how the loop goes on.
use nolibc.Prelude.{
  ℕ, zero, suc, ◌+◌, ◌-◌, ◌^◌, ◌≤◌, ◌<◌, ◌≡◌, ◌∙◌, inl, refl, sym, true, false, some, List, ◌++◌,
  arith, length, take,
}
use mathlib.Core.Path.{subst}
use nolibc.Mem.{Mem, Bytes, CStr}
use nolibc.Mem.Laws.{Apart, Bytes-frame}
use nolibc.Sys.World.{World}
use nolibc.Stdio.Printf.{Places, Callback, Printer, round, flush, printf_loop}
use nolibc.Stdio.Printf.Pieces.{Piece, format_of, args_of, Given}
use nolibc.Stdio.Printf.Plain.{ended}
use nolibc.Stdio.Printf.Handed.{counted, handed, total, emitted-plain, counted-plain}
use nolibc.Stdio.Printf.Sink.{Sink, Outside, Moves, Advances, Advances-append}
use nolibc.Stdio.Printf.Flush.{flush-Advances}

-- what the rounds of a call share: the callback with its laws, and where the format and the memory at
-- the start stand
pub record Setting (K : Type 0) : Type 1 where
  pub cb : Callback K
  pub at : Places
  pub scan : ℕ
  pub sink : Sink cb scan
  pub m0 : Mem
  pub fmt0 : ℕ
  pub len0 : ℕ
  pub low : at.tmpbuf + 21 < 2 ^ 64
  pub wide : 21 ≤ scan
  pub own_buffer : Apart sink.lo sink.size at.tmpbuf 21
  pub clear : Apart at.tmpbuf 21 fmt0 (len0 + 1) × Apart sink.lo sink.size fmt0 (len0 + 1)
  pub high : fmt0 + len0 < 2 ^ 64
  pub short : len0 < 2 ^ 63
  pub enough : len0 < scan

module _ {K : Type 0} (env : Setting K) where
  -- clear of what the code and the callback write
  abbrev pub Clear : ℕ → ℕ → Type 0
  Clear a n = Apart env.at.tmpbuf 21 a n × Apart env.sink.lo env.sink.size a n

  -- the memory is that of the start, but for what the code and the callback write
  abbrev pub Kept : Printer K → Type 0
  Kept p =
      (a : ℕ)
      → Outside env.at.tmpbuf 21 a
      → Outside env.sink.lo env.sink.size a
      → p.world.mem a ≡ env.m0 a

  -- the callback can take what is queued and the text of what is left
  abbrev pub Able : Printer K → List ℕ → List Piece → Type 0
  Able p s ps =
      env.sink.able p.world p.sink (length (take p.room s) + length (handed (p.room - length s) ps))

  -- between two directives: the bytes `s` are queued, and the format goes on with `ps` at `q`
  pub record Queued (p : Printer K) (s : List ℕ) (q : ℕ) (ps : List Piece) : Type 0 where
    pub plain : p.escape ≡ false
    pub left : p.args ≡ args_of ps
    pub count : p.ofs ≡ length s
    pub here : q ≡ p.fmt + length s
    pub queue : Bytes env.m0 p.fmt s
    pub format : CStr env.m0 q (format_of ps)
    pub begin : env.fmt0 ≤ p.fmt
    pub end : q + length (format_of ps) ≡ env.fmt0 + env.len0
    pub given : Given env.m0 Clear env.at.space env.scan ps
    pub kept : Kept p
    pub able : Able p s ps
    pub small : length s + total (p.room - length s) ps < 2 ^ 31

  -- the loop ends, and hands over `s` on its way, of which it counts `n`
  abbrev pub Ends : ℕ → Printer K → List ℕ → ℕ → Type 0
  Ends fuel p s n =
      (final : Printer K) × (printf_loop env.cb env.at env.scan fuel p ≡ some final)
      × Advances env.at env.sink p final s n
      × (final.written < 2 ^ 32)

  pub loop_more :
      (fuel : ℕ) (p q : Printer K)
      → 0 < fuel
      → round env.cb env.at env.scan p ≡ some (true, q)
      → printf_loop env.cb env.at env.scan fuel p ≡ printf_loop env.cb env.at env.scan (fuel - 1) q
  unfolding printf_loop
  loop_more zero p q h e = absurd (omega arith)
  loop_more (suc fuel) p q h e = let same : suc fuel - 1 ≡ fuel = omega arith in rw e (rw same refl)

  pub Ends-after :
      (fuel : ℕ) (p q : Printer K) (s t : List ℕ) (n k : ℕ)
      → 0 < fuel
      → round env.cb env.at env.scan p ≡ some (true, q)
      → Advances env.at env.sink p q s n
      → Ends (fuel - 1) q t k
      → Ends fuel p (s ++ t) (n + k)
  Ends-after fuel p q s t n k h e a (final, run, b, bound) = (
    final,
    loop_more fuel p q h e ∙ run,
    Advances-append env.at env.sink p q final s t n k a b,
    bound,
  )

  -- the bytes of the format are those that stood there before
  pub format_byte :
      (p : Printer K) (a c : ℕ)
      → Kept p
      → env.m0 a ≡ c
      → env.fmt0 ≤ a
      → a ≤ env.fmt0 + env.len0
      → p.world.mem a ≡ c
  format_byte p a c kept e lo hi =
      let (tmp, own) = env.clear in kept a (ground (arith, tmp)) (ground (arith, own)) ∙ e

  pub format-Bytes :
      (p : Printer K) (a : ℕ) (s : List ℕ)
      → Kept p
      → Bytes env.m0 a s
      → env.fmt0 ≤ a
      → a + length s ≤ env.fmt0 + env.len0 + 1
      → Bytes p.world.mem a s
  format-Bytes p a s kept b lo hi =
      let (tmp, own) = env.clear in
      Bytes-frame env.m0 p.world.mem a s b
        (λ x l h. kept x (ground (arith, tmp)) (ground (arith, own)))

  -- what is queued goes out in one call
  pub flush_queue :
      (p : Printer K) (s : List ℕ) (q : ℕ) (ps : List Piece)
      → Queued p s q ps
      → (w' : World K) × (sink' : ℕ) × (room' : ℕ) × (n' : ℕ) × (flush env.cb env.at env.scan p.fmt
            (length s)
            0
            (record (ended p) { ofs = length s })
          ≡ some (
            true,
            record (ended p) {
              ofs = length s;
              world = w';
              sink = sink';
              room = room';
              written = n';
            },
          ))
        × Moves env.at env.sink p.world p.sink p.written w' sink' n' (take p.room s) (length s)
        × env.sink.able w' sink' (length (handed (p.room - length s) ps))
        × (room' ≡ p.room - length s)
        × (n' < 2 ^ 32)
  flush_queue p s q ps i =
      let (tmp, own) = env.clear in
      let plain_ = emitted-plain p.room s in
      let (w', sink', room', n', run, a, able', left, bound) =
        flush-Advances env.at env.sink p.fmt 0 s (length (handed (p.room - length s) ps))
          (record (ended p) { ofs = length s })
          (subst
            (λ t. env.sink.able p.world p.sink (length t + length (handed (p.room - length s) ps)))
            (sym plain_) i.able)
          (format-Bytes p p.fmt s i.kept i.queue i.begin (omega (arith, i.here, i.end)))
          (ground (arith, own, i.begin, i.here, i.end))
          (omega (arith, env.enough, i.here, i.end, i.begin))
          (omega (arith, env.short, i.here, i.end, i.begin))
          (omega (arith, env.high, i.here, i.end)) (inl refl) (omega (arith, env.wide)) in
      (
        w',
        sink',
        room',
        n',
        run,
        subst (λ n. Moves env.at env.sink p.world p.sink p.written w' sink' n' (take p.room s) n)
            (counted-plain p.room s)
            (subst
              (λ t.
                Moves env.at env.sink p.world p.sink p.written w' sink' n' t (counted p.room 0 s))
              plain_ a),
        able',
        left,
        bound,
      )
