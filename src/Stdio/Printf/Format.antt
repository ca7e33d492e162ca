-- ===== src/Stdio/Printf/Format.antt =====
-- `__nolibc_printf` over a whole format.
use nolibc.Prelude.{
  ℕ, ◌+◌, ◌-◌, ◌^◌, ◌≤◌, ◌<◌, ◌≡◌, ◌∙◌, refl, true, false, some, List, [], ◌∷◌, ◌++◌, append-nil,
  length-append, arith, length, take, ap,
}
use mathlib.Core.Path.{subst}
use nolibc.Mem.{CStr}
use nolibc.Mem.Laws.{Apart}
use nolibc.Sys.World.{World}
use nolibc.Stdio.Printf.{Places, Callback, Printer, nolibc_printf}
use nolibc.Stdio.Printf.Pieces.{
  Piece, literal, percent, number, text, letter_of, format_of, args_of, Given,
}
use nolibc.Stdio.Printf.Handed.{handed, total, take-nil, handed-literal, total-literal}
use nolibc.Stdio.Printf.Sink.{Sink, Outside, Moves}
use nolibc.Stdio.Printf.Queued.{Setting, Queued, loop_more}
use nolibc.Stdio.Printf.Rounds.{Ends-here, passed_over}
use nolibc.Stdio.Printf.Directives.{Rest, queues_percent, prints_text, prints_number, prints_long}

module _ {K : Type 0} (env : Setting K) where
  -- from any place between two directives the loop hands over what is queued and what is left
  pieces-Rest :
      (ps : List Piece) (fuel : ℕ) (p : Printer K) (s : List ℕ) (q : ℕ)
      → Queued env p s q ps
      → length (format_of ps) < fuel
      → Rest env fuel p s ps
  pieces-Rest [] fuel p s q i f =
      let none_ : length s ≡ length s + 0 = omega arith in
      let (final, run, moves, bound) = Ends-here env fuel p s q i (omega arith) in
      rw (append-nil (take p.room s)) (
        final,
        run,
        subst
            (λ n.
              Moves env.at env.sink p.world p.sink p.written final.world final.sink final.written
                (take p.room s) n)
            none_ moves,
        bound,
      )
  pieces-Rest (literal c ∷ ps) fuel p s q i f =
      let (r, i') = passed_over env p s q c ps i in
      let (final, run, moves, bound) =
        pieces-Rest ps (fuel - 1) (record p { ofs = p.ofs + 1 }) (s ++ c ∷ []) (q + 1) i'
          (omega (arith, f)) in
      rw (handed-literal p.room c s ps) (
        rw (total-literal p.room c s ps) (
          final,
          loop_more env fuel p (record p { ofs = p.ofs + 1 }) (omega (arith, f)) r ∙ run,
          moves,
          bound,
        ))
  pieces-Rest (percent ∷ ps) fuel p s q i f =
      queues_percent env p s q ps fuel i (omega (arith, f))
        (λ d i'. pieces-Rest ps (fuel - 1 - 1) d (b'%' ∷ []) (q + 1 + 1) i' (omega (arith, f)))
  pieces-Rest (number ds true k v ∷ ps) fuel p s q i f =
      let size = length-append ds (b'l' ∷ letter_of k ∷ format_of ps) in
      prints_long env p s q ds v k ps fuel i (omega (arith, f, size)) (λ e i'.
        pieces-Rest ps (fuel - 1 - 1 - 1) e [] (q + 1 + (length ds + 1) + 1) i'
          (omega (arith, f, size)))
  pieces-Rest (number ds false k v ∷ ps) fuel p s q i f =
      let size = length-append ds (letter_of k ∷ format_of ps) in
      prints_number env p s q ds v k ps fuel i (omega (arith, f, size)) (λ e i'.
        pieces-Rest ps (fuel - 1 - 1) e [] (q + 1 + (length ds + 1)) i' (omega (arith, f, size)))
  pieces-Rest (text ds a t ∷ ps) fuel p s q i f =
      let size = length-append ds (b's' ∷ format_of ps) in
      prints_text env p s q ds a t ps fuel i (omega (arith, f, size)) (λ e i'.
        pieces-Rest ps (fuel - 1 - 1) e [] (q + 1 + (length ds + 1)) i' (omega (arith, f, size)))

module _ {K : Type 0} (cb : Callback K) (at : Places) (scan : ℕ) (sink : Sink cb scan)
    (own : Apart sink.lo sink.size at.tmpbuf 21) (low : at.tmpbuf + 21 < 2 ^ 64)
    (wide : 21 ≤ scan) where
  -- clear of `tmpbuf` and of the callback's area
  abbrev pub Free : ℕ → ℕ → Type 0
  Free a k = Apart at.tmpbuf 21 a k × Apart sink.lo sink.size a k

  -- __nolibc_printf hands the pieces of a format to any callback that obeys its laws, under the limit `n`
  pub nolibc_printf-handed :
      (fuel n fmt state : ℕ) (ps : List Piece) (w : World K)
      → CStr w.mem fmt (format_of ps)
      → Given w.mem Free at.space scan ps
      → Free fmt (length (format_of ps) + 1)
      → fmt + length (format_of ps) < 2 ^ 64
      → length (format_of ps) < 2 ^ 63
      → length (format_of ps) < fuel
      → length (format_of ps) < scan
      → sink.able w state (length (handed n ps))
      → total n ps < 2 ^ 31
      → (w' : World K) × (state' : ℕ) × (nolibc_printf cb at scan fuel state n fmt (args_of ps) w
          ≡ some (w', state', total n ps))
        × (sink.output w' state' ≡ sink.output w state ++ handed n ps)
        × (w'.errno ≡ w.errno)
        × ((a : ℕ) → Outside at.tmpbuf 21 a → Outside sink.lo sink.size a → w'.mem a ≡ w.mem a)
  unfolding nolibc_printf
  nolibc_printf-handed fuel n fmt state ps w h given free high short f enough able_ small =
      let env : Setting K = record {
        cb = cb;
        at = at;
        scan = scan;
        sink = sink;
        m0 = w.mem;
        fmt0 = fmt;
        len0 = length (format_of ps);
        low = low;
        wide = wide;
        own_buffer = own;
        clear = free;
        high = high;
        short = short;
        enough = enough;
      } in
      let start : Printer K = record {
        world = w;
        sink = state;
        fmt = fmt;
        ofs = 0;
        escape = false;
        lpref = 0;
        room = n;
        written = 0;
        args = args_of ps;
      } in
      let all_ : n - 0 ≡ n = omega arith in
      let none_ : 0 + length (handed n ps) ≡ length (handed n ps) = omega arith in
      let (final, run, a, bound) =
        pieces-Rest env ps fuel start [] fmt
          (record {
            plain = refl;
            left = refl;
            count = refl;
            here = omega arith;
            queue = tt;
            format = h;
            begin = omega arith;
            end = refl;
            given = given;
            kept = λ b out own'. refl;
            able = rw all_ (rw (take-nil n) (rw none_ able_));
            small = rw all_ (omega (arith, small));
          })
          f in
      let same : take n [] ++ handed (n - 0) ps ≡ handed n ps = rw all_ (rw (take-nil n) refl) in
      let whole : final.written ≡ total n ps =
        omega (arith, a.counts, bound, small, ap (λ r. total r ps) all_) in
      (
        final.world,
        final.sink,
        rw run (rw whole refl),
        a.printed ∙ ap (λ t. sink.output w state ++ t) same,
        a.same_errno,
        a.kept,
      )
