-- ===== src/Stdio/Printf/Rounds.antt =====
-- The rounds of the loop outside a directive: a byte that stands for itself, the percent sign that opens a
-- directive, and the end of the format.
use nolibc.Prelude.{
  ℕ, zero, suc, ◌+◌, ◌-◌, ◌^◌, ◌≤◌, ◌<◌, ◌≡◌, ◌∙◌, refl, sym, ap, true, some, List, [], ◌∷◌, ◌++◌,
  length-append, arith, length, take,
}
use mathlib.Core.Path.{subst}
use nolibc.Mem.Laws.{Bytes-snoc}
use nolibc.Stdio.Printf.{Printer, round, after_flush, printf_loop}
use nolibc.Stdio.Printf.Pieces.{Piece, literal, format_of, args_of}
use nolibc.Stdio.Printf.Plain.{round-plain}
use nolibc.Stdio.Printf.Handed.{handed, total, handed-literal, total-literal}
use nolibc.Stdio.Printf.Sink.{Advances}
use nolibc.Stdio.Printf.Queued.{Setting, Kept, Queued, Ends, format_byte, flush_queue}

module _ {K : Type 0} (env : Setting K) where
  -- a directive begins: `d` stands behind its percent sign, at `q`
  pub record Directed (d : Printer K) (q : ℕ) (lpref : ℕ) (ps : List Piece) : Type 0 where
    pub here : d.fmt ≡ q
    pub at_start : d.ofs ≡ 0
    pub escaped : d.escape ≡ true
    pub longs : d.lpref ≡ lpref
    pub left : d.args ≡ args_of ps
    pub begin : env.fmt0 ≤ q
    pub kept : Kept env d
    pub able : env.sink.able d.world d.sink (length (handed d.room ps))
    pub small : total d.room ps < 2 ^ 31

  -- the first of the rounds of a directive hands over what is queued
  pub begins :
      (p : Printer K) (s : List ℕ) (q : ℕ) (ps : List Piece)
      → Queued env p s q ps
      → env.m0 q ≡ b'%'
      → 0 < length (format_of ps)
      → (d : Printer K) × (round env.cb env.at env.scan p ≡ some (true, d))
        × Advances env.at env.sink p d (take p.room s) (length s)
        × Directed d (q + 1) 0 ps
        × (d.room ≡ p.room - length s)
  unfolding round after_flush
  begins p s q ps i e some_ =
      let (w', sink', room', n', run, a, able', left, bound) = flush_queue env p s q ps i in
      let sign : p.world.mem (p.fmt + length s) ≡ b'%' =
        subst (λ b. p.world.mem b ≡ b'%') i.here
          (format_byte env p q b'%' i.kept e (omega (arith, i.here, i.begin))
            (omega (arith, i.end))) in
      let same : length s + 1 - 1 ≡ length s = omega arith in
      let d = record p {
        world = w';
        sink = sink';
        room = room';
        written = n';
        escape = true;
        lpref = 0;
        fmt = p.fmt + (length s + 1);
        ofs = 0;
      } in
      (
        d,
        rw i.plain (rw i.count (rw sign (rw same (rw run refl)))),
        a,
        record {
          here = omega (arith, i.here);
          at_start = refl;
          escaped = refl;
          longs = refl;
          left = i.left;
          begin = omega (arith, i.here, i.begin);
          kept = λ x out own. a.kept x out own ∙ i.kept x out own;
          able = subst (λ r. env.sink.able w' sink' (length (handed r ps))) (sym left) able';
          small = subst (λ r. total r ps < 2 ^ 31) (sym left) (omega (arith, i.small));
        },
        left,
      )

  pub Ends-here :
      (fuel : ℕ) (p : Printer K) (s : List ℕ) (q : ℕ)
      → Queued env p s q []
      → 0 < fuel
      → Ends env fuel p (take p.room s) (length s)
  unfolding printf_loop round after_flush
  Ends-here zero p s q i h = absurd (omega arith)
  Ends-here (suc fuel) p s q i h =
      let (w', sink', room', n', run, a, able', left, bound) = flush_queue env p s q [] i in
      let zero_ : p.world.mem (p.fmt + length s) ≡ 0 =
        subst (λ b. p.world.mem b ≡ 0) i.here
          (format_byte env p q 0 i.kept i.format (omega (arith, i.here, i.begin))
            (omega (arith, i.end))) in
      let same : length s + 1 - 1 ≡ length s = omega arith in
      (
        record p {
          world = w';
          sink = sink';
          room = room';
          written = n';
          escape = true;
          lpref = 0;
          ofs = length s;
        },
        rw i.plain (rw i.count (rw zero_ (rw same (rw run refl)))),
        a,
        bound,
      )

  -- a byte that stands for itself is queued
  pub passed_over :
      (p : Printer K) (s : List ℕ) (q c : ℕ) (ps : List Piece)
      → Queued env p s q (literal c ∷ ps)
      → (round env.cb env.at env.scan p ≡ some (true, record p { ofs = p.ofs + 1 }))
        × Queued env (record p { ofs = p.ofs + 1 }) (s ++ c ∷ []) (q + 1) ps
  passed_over p s q c ps i =
      let byte =
        format_byte env p q c i.kept i.format.0 (omega (arith, i.here, i.begin))
          (omega (arith, i.end)) in
      let longer = length-append s (c ∷ []) in
      let place : q ≡ p.fmt + p.ofs = omega (arith, i.here, i.count) in
      let sizes =
        sym (length-append (take p.room s) (handed (p.room - length s) (literal c ∷ ps)))
        ∙ ap length (handed-literal p.room c s ps)
        ∙ length-append (take p.room (s ++ c ∷ [])) (handed (p.room - length (s ++ c ∷ [])) ps) in
      (
        round-plain env.cb env.at env.scan p.world p.sink p c i.plain
            (subst (λ b. p.world.mem b ≡ c) place byte) i.format.1 i.given.0,
        record {
          plain = i.plain;
          left = i.left;
          count = omega (arith, i.count, longer);
          here = omega (arith, i.here, longer);
          queue = Bytes-snoc env.m0 p.fmt q s c i.here i.queue i.format.0;
          format = i.format.2;
          begin = i.begin;
          end = omega (arith, i.end);
          given = i.given.1;
          kept = i.kept;
          able = subst (λ n. env.sink.able p.world p.sink n) sizes i.able;
          small = subst (λ n. n < 2 ^ 31) (total-literal p.room c s ps) i.small;
        },
      )
