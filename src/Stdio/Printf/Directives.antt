-- ===== src/Stdio/Printf/Directives.antt =====
-- The directives of a format: a second percent sign, a string, and a number with or without `l`.
use nolibc.Prelude.{
  ℕ, ◌+◌, ◌-◌, ◌^◌, ◌<◌, ◌≡◌, ◌∙◌, refl, sym, ap, Bool, true, false, some, List, [], ◌∷◌, ◌++◌,
  length-append, arith, length, take, All,
}
use mathlib.Core.Path.{subst}
use nolibc.Mem.{CStr}
use nolibc.Mem.Laws.{CStr-frame, CStr-behind}
use nolibc.Stdlib.Decimal.Spec.{IsDigit}
use nolibc.Stdio.Printf.{Printer, directive, round, escaped}
use nolibc.Stdio.Printf.Pieces.{
  Piece, percent, number, text, Conversion, letter_of, format_of, args_of, said, width_of, width,
  Padded, Given, longs,
}
use nolibc.Stdio.Printf.Conversions.{convert-text_of, string_given, number_given, letter_lem}
use nolibc.Stdio.Printf.Handed.{
  emitted, counted, handed, total, take-nil, emitted-plain, counted-plain,
}
use nolibc.Stdio.Printf.Sink.{Advances}
use nolibc.Stdio.Printf.Queued.{Setting, Clear, Queued, Ends, loop_more, Ends-after}
use nolibc.Stdio.Printf.Rounds.{Directed, begins}
use nolibc.Stdio.Printf.Widths.{round-width, round-emit}

module _ {K : Type 0} (env : Setting K) where
  -- the loop hands over what is queued, and what is left of the format
  abbrev pub Rest : ℕ → Printer K → List ℕ → List Piece → Type 0
  Rest fuel p s ps =
      Ends env fuel p (take p.room s ++ handed (p.room - length s) ps)
        (length s + total (p.room - length s) ps)

  -- the same from inside a directive
  abbrev Inner : ℕ → Printer K → List Piece → Type 0
  Inner fuel d ps = Ends env fuel d (handed d.room ps) (total d.room ps)

  nothing-Rest :
      (fuel : ℕ) (e : Printer K) (ps : List Piece) (room : ℕ)
      → e.room ≡ room
      → Rest fuel e [] ps
      → Ends env fuel e (handed room ps) (total room ps)
  nothing-Rest fuel e ps room r h =
      let same : e.room - 0 ≡ room = omega (arith, r) in
      let none_ : 0 + total room ps ≡ total room ps = omega arith in
      subst (λ n. Ends env fuel e (handed room ps) n) none_ (rw same at (rw (take-nil e.room) at h))

  -- a directive opens behind what is queued
  opened :
      (fuel : ℕ) (p d : Printer K) (s : List ℕ) (ps : List Piece)
      → 0 < fuel
      → round env.cb env.at env.scan p ≡ some (true, d)
      → Advances env.at env.sink p d (take p.room s) (length s)
      → d.room ≡ p.room - length s
      → Inner (fuel - 1) d ps
      → Rest fuel p s ps
  opened fuel p d s ps h e a r inner =
      Ends-after env fuel p d (take p.room s) (handed (p.room - length s) ps) (length s)
        (total (p.room - length s) ps) h e a
        (subst (λ n. Ends env (fuel - 1) d (handed n ps) (total n ps)) r inner)

  -- and closes behind its text
  closed :
      (fuel : ℕ) (d e : Printer K) (piece : Piece) (ps : List Piece)
      → 0 < fuel
      → round env.cb env.at env.scan d ≡ some (true, e)
      → Advances env.at env.sink d e
          (emitted d.room (width_of piece) (said piece))
          (counted d.room (width_of piece) (said piece))
      → e.room ≡ d.room - length (said piece)
      → Rest (fuel - 1) e [] ps
      → Inner fuel d (piece ∷ ps)
  closed fuel d e piece ps h run a r rest =
      Ends-after env fuel d e (emitted d.room (width_of piece) (said piece))
        (handed (d.room - length (said piece)) ps) (counted d.room (width_of piece) (said piece))
        (total (d.room - length (said piece)) ps) h run a
        (nothing-Rest (fuel - 1) e ps (d.room - length (said piece)) r rest)

  round_queue :
      (d : Printer K) (q : ℕ) (ps : List Piece)
      → Directed env d q 0 (percent ∷ ps)
      → CStr env.m0 q (b'%' ∷ format_of ps)
      → q + 1 + length (format_of ps) ≡ env.fmt0 + env.len0
      → Given env.m0 (Clear env) env.at.space env.scan ps
      → (round env.cb env.at env.scan d ≡ some (true, record d { escape = false; ofs = 1 }))
        × Queued env (record d { escape = false; ofs = 1 }) (b'%' ∷ []) (q + 1) ps
  unfolding escaped directive
  round_queue d q ps i h end given =
      let sizes : length {A = ℕ} (handed d.room (percent ∷ ps))
          ≡ length (take {A = ℕ} d.room (b'%' ∷ [])) + length {A = ℕ} (handed (d.room - 1) ps) =
        ap (λ t. length (t ++ handed (d.room - 1) ps)) (emitted-plain d.room (b'%' ∷ []))
        ∙ length-append (take d.room (b'%' ∷ [])) (handed (d.room - 1) ps) in
      (
        round-width env d q 0 (percent ∷ ps) [] b'%' (format_of ps) i h (omega (arith, end)) tt
            refl,
        record {
          plain = refl;
          left = i.left;
          count = refl;
          here = omega (arith, i.here);
          queue = (subst (λ y. env.m0 y ≡ b'%') (sym i.here) h.0, tt);
          format = h.2;
          begin = omega (arith, i.begin, i.here);
          end = end;
          given = given;
          kept = i.kept;
          able = subst (λ n. env.sink.able d.world d.sink n) sizes i.able;
          small =
              subst (λ n. n + total (d.room - 1) ps < 2 ^ 31) (counted-plain d.room (b'%' ∷ []))
                i.small;
        },
      )

  pub queues_percent :
      (p : Printer K) (s : List ℕ) (q : ℕ) (ps : List Piece) (fuel : ℕ)
      → Queued env p s q (percent ∷ ps)
      → 2 < fuel
      → ((d : Printer K)
          → Queued env d (b'%' ∷ []) (q + 1 + 1) ps
          → Rest (fuel - 1 - 1) d (b'%' ∷ []) ps)
      → Rest fuel p s (percent ∷ ps)
  queues_percent p s q ps fuel i h next =
      let (d, r, a, dir, room) = begins env p s q (percent ∷ ps) i i.format.0 (omega arith) in
      let (run, queued) = round_queue d (q + 1) ps dir i.format.2 (omega (arith, i.end)) i.given in
      let d' = record d { escape = false; ofs = 1 } in
      let (final, rest, moves, bound) = next d' queued in
      opened fuel p d s (percent ∷ ps) (omega arith) r a room (
        final,
        loop_more env (fuel - 1) d d' (omega arith) run ∙ rest,
        rw (emitted-plain d.room (b'%' ∷ [])) (rw (counted-plain d.room (b'%' ∷ [])) moves),
        bound,
      )

  -- where the format goes on behind the letter of a directive
  behind :
      (q c : ℕ) (ds rest : List ℕ)
      → CStr env.m0 q (ds ++ c ∷ rest)
      → CStr env.m0 (q + (length ds + 1)) rest
  behind q c ds rest h =
      subst (λ y. CStr env.m0 y rest) (omega arith) (CStr-behind env.m0 q ds (c ∷ rest) h).2

  pub prints_text :
      (p : Printer K) (s : List ℕ) (q : ℕ) (ds : List ℕ) (a : ℕ) (t : List ℕ) (ps : List Piece)
      (fuel : ℕ)
      → Queued env p s q (text ds a t ∷ ps)
      → 2 < fuel
      → ((e : Printer K)
          → Queued env e [] (q + 1 + (length ds + 1)) ps
          → Rest (fuel - 1 - 1) e [] ps)
      → Rest fuel p s (text ds a t ∷ ps)
  prints_text p s q ds a t ps fuel i h next =
      let (d, r, ad, dir, room) = begins env p s q (text ds a t ∷ ps) i i.format.0 (omega arith) in
      let (tmp, own) = i.given.2 in
      let string_ =
        CStr-frame env.m0 d.world.mem a t i.given.1
          (λ y lo hi. dir.kept y (ground (arith, tmp)) (ground (arith, own))) in
      let (e, run, ae, queued, room') =
        round-emit env d (q + 1) 0 ds b's' a d.world.mem (text ds a t) ps dir refl i.format.2
          (omega (arith, i.end, length-append ds (b's' ∷ format_of ps))) i.given.5 refl
          (omega arith) (string_given env.at d a (args_of ps) i.given.0 dir.left) string_
          (λ y outside. refl) (ground (arith, own)) i.given.4 i.given.3
          (behind (q + 1) b's' ds (format_of ps) i.format.2) i.given.6 in
      opened fuel p d s (text ds a t ∷ ps) (omega arith) r ad room
        (closed (fuel - 1) d e (text ds a t) ps (omega arith) run ae room' (next e queued))

  -- a number, in a state behind its percent sign and its modifier
  directs_number :
      (d : Printer K) (q : ℕ) (ds es : List ℕ) (v : ℕ) (long : Bool) (k : Conversion)
      (ps : List Piece) (fuel : ℕ)
      → Directed env d q (longs long) (number ds long k v ∷ ps)
      → width es ≡ width_of (number ds long k v)
      → CStr env.m0 q (es ++ letter_of k ∷ format_of ps)
      → q + (length es + 1) + length (format_of ps) ≡ env.fmt0 + env.len0
      → Padded env.m0 (Clear env) env.at.space es
      → v < 2 ^ 64
      → Given env.m0 (Clear env) env.at.space env.scan ps
      → 0 < fuel
      → ((e : Printer K) → Queued env e [] (q + (length es + 1)) ps → Rest (fuel - 1) e [] ps)
      → Inner fuel d (number ds long k v ∷ ps)
  directs_number d q ds es v long k ps fuel i same_width h end padded lt given f next =
      let (m, gives, (there, short, same)) =
        convert-text_of d.world.mem env.at.tmpbuf v long k lt in
      let (e, run, ae, queued, room) =
        round-emit env d q (longs long) es (letter_of k) env.at.tmpbuf m (number ds long k v) ps i
          same_width h end padded (letter_lem k).0 (letter_lem k).1
          (number_given env.at d m v (args_of ps) long k i.longs i.left gives) there same
          (ground (arith, env.own_buffer, short)) (omega (arith, env.wide, short))
          (omega (arith, env.low, short)) (behind q (letter_of k) es (format_of ps) h) given in
      closed fuel d e (number ds long k v) ps f run ae room (next e queued)

  pub prints_number :
      (p : Printer K) (s : List ℕ) (q : ℕ) (ds : List ℕ) (v : ℕ) (k : Conversion) (ps : List Piece)
      (fuel : ℕ)
      → Queued env p s q (number ds false k v ∷ ps)
      → 2 < fuel
      → ((e : Printer K)
          → Queued env e [] (q + 1 + (length ds + 1)) ps
          → Rest (fuel - 1 - 1) e [] ps)
      → Rest fuel p s (number ds false k v ∷ ps)
  prints_number p s q ds v k ps fuel i h next =
      let piece = number ds false k v in
      let (d, r, ad, dir, room) = begins env p s q (piece ∷ ps) i i.format.0 (omega arith) in
      opened fuel p d s (piece ∷ ps) (omega arith) r ad room (
        directs_number d (q + 1) ds ds v false k ps (fuel - 1) dir refl i.format.2
          (omega (arith, i.end, length-append ds (letter_of k ∷ format_of ps))) i.given.1 i.given.0
          i.given.2 (omega arith) next)

  Padded-digits : (ds : List ℕ) → Padded env.m0 (Clear env) env.at.space ds → All IsDigit ds
  Padded-digits [] h = tt
  Padded-digits (x ∷ ds) h = h.0

  -- `l` counts, the width is forgotten, and the directive goes on
  round_long :
      (d : Printer K) (q : ℕ) (piece : Piece) (ps : List Piece) (ds rest : List ℕ)
      → Directed env d q 0 (piece ∷ ps)
      → CStr env.m0 q (ds ++ b'l' ∷ rest)
      → q + length ds < env.fmt0 + env.len0 + 1
      → All IsDigit ds
      → (round env.cb env.at env.scan d
          ≡ some
              (true, record d { lpref = 1; escape = true; fmt = d.fmt + (length ds + 1); ofs = 0 }))
        × Directed env
            (record d { lpref = 1; escape = true; fmt = d.fmt + (length ds + 1); ofs = 0 })
            (q + (length ds + 1))
            1
            (piece ∷ ps)
  unfolding escaped directive
  round_long d q piece ps ds rest i h hi dig = (
    round-width env d q 0 (piece ∷ ps) ds b'l' rest i h hi dig refl ∙ rw i.longs refl,
    record {
      here = omega (arith, i.here);
      at_start = refl;
      escaped = refl;
      longs = refl;
      left = i.left;
      begin = omega (arith, i.begin);
      kept = i.kept;
      able = i.able;
      small = i.small;
    },
  )

  pub prints_long :
      (p : Printer K) (s : List ℕ) (q : ℕ) (ds : List ℕ) (v : ℕ) (k : Conversion) (ps : List Piece)
      (fuel : ℕ)
      → Queued env p s q (number ds true k v ∷ ps)
      → 3 < fuel
      → ((e : Printer K)
          → Queued env e [] (q + 1 + (length ds + 1) + 1) ps
          → Rest (fuel - 1 - 1 - 1) e [] ps)
      → Rest fuel p s (number ds true k v ∷ ps)
  prints_long p s q ds v k ps fuel i h next =
      let piece = number ds true k v in
      let tail = letter_of k ∷ format_of ps in
      let size = length-append ds (b'l' ∷ tail) in
      let (d, r, ad, dir, room) = begins env p s q (piece ∷ ps) i i.format.0 (omega arith) in
      let d' = record d { lpref = 1; escape = true; fmt = d.fmt + (length ds + 1); ofs = 0 } in
      let (run, dir') =
        round_long d (q + 1) piece ps ds tail dir i.format.2 (omega (arith, i.end, size))
          (Padded-digits ds i.given.1) in
      let (final, rest, moves, bound) =
        directs_number d' (q + 1 + (length ds + 1)) ds [] v true k ps (fuel - 1 - 1) dir' refl
          (behind (q + 1) b'l' ds tail i.format.2) (omega (arith, i.end, size)) tt i.given.0
          i.given.2 (omega arith) next in
      opened fuel p d s (piece ∷ ps) (omega arith) r ad room
        (final, loop_more env (fuel - 1) d d' (omega arith) run ∙ rest, moves, bound)
