-- ===== src/Stdio/Printf/Widths.antt =====
-- The digits of a width, and the round of a directive that prints a text.
use nolibc.Prelude.{
  ℕ, zero, suc, ◌+◌, ◌-◌, ◌*◌, ◌%◌, ◌^◌, ◌<◌, ◌≡◌, ◌≢◌, ◌∙◌, ◌⊎◌, inl, inr, refl, sym, ap, true,
  false, some, List, [], ◌∷◌, ◌++◌, length-append, arith, length, take, All, leb, ◌&&◌, ne→==,
}
use mathlib.Core.Path.{subst}
use nolibc.Mem.{Mem, Bytes, CStr}
use nolibc.Mem.Laws.{SameOutside, Apart, Bytes-CStr, Bytes-front}
use nolibc.Str.Scan.Laws.{strlen-length}
use nolibc.Stdlib.Decimal.Spec.{IsDigit, value}
use nolibc.Stdio.Printf.{Printer, emit, directive, width_loop, round, escaped, after_flush}
use nolibc.Stdio.Printf.Pieces.{Piece, format_of, args_of, said, width_of, width, Padded, Given}
use nolibc.Stdio.Printf.Plain.{within}
use nolibc.Stdio.Printf.Handed.{counted-ge, emitted, counted, handed, total, length-take}
use nolibc.Stdio.Printf.Sink.{Moves, Advances, HasSpace}
use nolibc.Stdio.Printf.Flush.{flush-Advances}
use nolibc.Stdio.Printf.Queued.{Setting, Clear, Kept, Able, Queued, format-Bytes}
use nolibc.Stdio.Printf.Rounds.{Directed}

-- the value of digits modulo the range of an `unsigned int`
value-mod :
    (n k : ℕ) (ds : List ℕ) → n % 2 ^ 32 ≡ k % 2 ^ 32 → value n ds % 2 ^ 32 ≡ value k ds % 2 ^ 32
value-mod n k [] e = e
value-mod n k (d ∷ ds) e = value-mod (n * 10 + (d - b'0')) (k * 10 + (d - b'0')) ds (omega arith)

-- the loop over the digits of a width stops behind them
width_loop-value :
    (ds : List ℕ) (fuel : ℕ) (m : Mem) (fmt o acc c : ℕ)
    → Bytes m (fmt + o) (ds ++ c ∷ [])
    → All IsDigit ds
    → (leb b'0' c && leb c b'9') ≡ false
    → length ds < fuel
    → width_loop fuel m fmt (m (fmt + o)) (acc % 2 ^ 32) (o + 1)
      ≡ some (value acc ds % 2 ^ 32, c, o + (length ds + 1))
unfolding width_loop
width_loop-value ds zero m fmt o acc c b dig nd f = absurd (omega arith)
width_loop-value [] (suc fuel) m fmt o acc c (e, _) dig nd f = rw e (rw nd refl)
width_loop-value (d ∷ ds) (suc fuel) m fmt o acc c (e, b) (dd, dig) nd f =
    let digit : (leb b'0' d && leb d b'9') ≡ true = ground (arith, dd) in
    let place : fmt + (o + 1) ≡ fmt + o + 1 = omega arith in
    let sum = acc % 2 ^ 32 * 10 % 2 ^ 32 + (d - b'0') in
    let behind : o + 1 + (length ds + 1) ≡ o + (suc (length ds) + 1) = omega arith in
    let same : value sum ds % 2 ^ 32 ≡ value (acc * 10 + (d - b'0')) ds % 2 ^ 32 =
      value-mod sum (acc * 10 + (d - b'0')) ds (omega arith) in
    let rest =
      width_loop-value ds fuel m fmt (o + 1) sum c
        (subst (λ x. Bytes m x (ds ++ c ∷ [])) (sym place) b) dig nd (omega arith) in
    rw e (rw digit (rest ∙ rw same (rw behind refl)))

module _ {K : Type 0} (env : Setting K) where
  -- a round behind a percent sign, up to what the directive is
  pub round-width :
      (d : Printer K) (q lpref : ℕ) (ps : List Piece) (ds : List ℕ) (c : ℕ) (rest : List ℕ)
      → Directed env d q lpref ps
      → CStr env.m0 q (ds ++ c ∷ rest)
      → q + length ds < env.fmt0 + env.len0 + 1
      → All IsDigit ds
      → (leb b'0' c && leb c b'9') ≡ false
      → round env.cb env.at env.scan d
        ≡ escaped env.cb env.at env.scan (width ds) c (length ds + 1) d
  unfolding round
  round-width d q lpref ps ds c rest i h hi dig nd =
      let bytes : Bytes env.m0 q (ds ++ c ∷ []) =
        Bytes-front env.m0 q c ds rest (Bytes-CStr env.m0 q (ds ++ c ∷ rest) h) in
      let there =
        format-Bytes env d q (ds ++ c ∷ []) i.kept bytes i.begin
          (omega (arith, length-append ds (c ∷ []), hi)) in
      let start : q ≡ d.fmt + 0 = omega (arith, i.here) in
      let run =
        width_loop-value ds env.scan d.world.mem d.fmt 0 0 c
          (subst (λ x. Bytes d.world.mem x (ds ++ c ∷ [])) start there) dig nd
          (omega (arith, hi, i.begin, env.enough)) in
      let behind : 0 + (length ds + 1) ≡ length ds + 1 = omega arith in
      rw i.escaped
        (rw i.at_start (rw run (ap (λ n. escaped env.cb env.at env.scan (width ds) c n d) behind)))

  -- what the padding of a width needs is still there
  still-Padded :
      (d : Printer K) (m : Mem) (ds : List ℕ)
      → Padded env.m0 (Clear env) env.at.space ds
      → Kept env d
      → SameOutside env.at.tmpbuf 21 d.world.mem m
      → All IsDigit ds × ((width ds ≡ 0) ⊎ HasSpace env.at env.sink m)
  still-Padded d m [] h kept same = (tt, inl refl)
  still-Padded d m (x ∷ ds) (dig, here, (tmp, own), high) kept same =
      let a = env.at.space in
      (
        dig,
        inr (
          same a (ground (arith, tmp)) ∙ kept a (ground (arith, tmp)) (ground (arith, own)) ∙ here,
          own,
          high,
        ),
      )

  within_nothing : (n : ℕ) → within 0 n ≡ 0
  within_nothing n = ground arith

  -- nothing is queued
  nothing-Able :
      (e : Printer K) (ps : List Piece)
      → env.sink.able e.world e.sink (length (handed e.room ps))
      → Able env e [] ps
  nothing-Able e ps h =
      let same : e.room - 0 ≡ e.room = omega arith in
      let none_ : length (take {A = ℕ} e.room []) ≡ 0 =
        omega (arith, length-take e.room [], within_nothing e.room) in
      subst (λ n. env.sink.able e.world e.sink n) (rw none_ (rw same (omega arith))) h

  rest_small :
      (room : ℕ) (ps : List Piece) → total room ps < 2 ^ 31 → 0 + total (room - 0) ps < 2 ^ 31
  rest_small room ps h = let same : room - 0 ≡ room = omega arith in rw same (omega arith)

  pub round-emit :
      (d : Printer K) (q lpref : ℕ) (ds : List ℕ) (c t : ℕ) (m : Mem) (piece : Piece)
      (ps : List Piece)
      → Directed env d q lpref (piece ∷ ps)
      → width ds ≡ width_of piece
      → CStr env.m0 q (ds ++ c ∷ format_of ps)
      → q + (length ds + 1) + length (format_of ps) ≡ env.fmt0 + env.len0
      → Padded env.m0 (Clear env) env.at.space ds
      → (leb b'0' c && leb c b'9') ≡ false
      → c ≢ 0
      → directive env.at c d.lpref d.world.mem d.world.errno d.args ≡ some (emit m t (args_of ps))
      → CStr m t (said piece)
      → SameOutside env.at.tmpbuf 21 d.world.mem m
      → Apart env.sink.lo env.sink.size t (length (said piece))
      → length (said piece) < env.scan
      → t + length (said piece) < 2 ^ 64
      → CStr env.m0 (q + (length ds + 1)) (format_of ps)
      → Given env.m0 (Clear env) env.at.space env.scan ps
      → (e : Printer K) × (round env.cb env.at env.scan d ≡ some (true, e))
        × Advances env.at env.sink d e
            (emitted d.room (width_of piece) (said piece))
            (counted d.room (width_of piece) (said piece))
        × Queued env e [] (q + (length ds + 1)) ps
        × (e.room ≡ d.room - length (said piece))
  unfolding escaped after_flush
  round-emit d q lpref ds c t m piece ps i same_width format end padded nd nz gives there same own f
        high after given =
      let s = said piece in
      let (dig, needs) = still-Padded d m ds padded i.kept same in
      let start = record d {
        world = record d.world { mem = m };
        escape = false;
        args = args_of ps;
      } in
      let next = length (handed (d.room - length s) ps) in
      let sizes =
        length-append (emitted d.room (width_of piece) s) (handed (d.room - length s) ps)
        ∙ ap (λ y. length (emitted d.room y s) + next) (sym same_width) in
      let (printed, able_) =
        env.sink.still d.world d.sink (length (emitted d.room (width ds) s) + next) m
          (subst (λ n. env.sink.able d.world d.sink n) sizes i.able)
          (λ a lo hi. same a (ground (arith, env.own_buffer))) in
      let (w', sink', room', n', run, a, able', left, bound) =
        flush-Advances env.at env.sink t (width ds) s next start able_ (Bytes-CStr m t s there) own
          f (omega (arith, i.small, counted-ge d.room (width_of piece) s)) high needs
          (omega (arith, env.wide)) in
      let e = record start {
        world = w';
        sink = sink';
        room = room';
        written = n';
        fmt = d.fmt + (length ds + 1);
        ofs = 0;
      } in
      (
        e,
        round-width d q lpref (piece ∷ ps) ds c (format_of ps) i format (omega (arith, end)) dig nd
            ∙ rw gives
                (rw (strlen-length env.scan m t s there f) (rw run (rw (ne→== c 0 nz) refl))),
        subst
            (λ y.
              Moves env.at env.sink d.world d.sink d.written w' sink' n' (emitted d.room y s)
                (counted d.room y s))
            same_width
            (record {
              printed = a.printed ∙ ap (λ y. y ++ emitted d.room (width ds) s) printed;
              counts = a.counts;
              same_errno = a.same_errno;
              kept = λ x out own'. a.kept x out own' ∙ same x out;
            }),
        record {
          plain = refl;
          left = refl;
          count = refl;
          here = omega (arith, i.here);
          queue = tt;
          format = after;
          begin = omega (arith, i.here, i.begin);
          end = end;
          given = given;
          kept = λ x out own'. a.kept x out own' ∙ same x out ∙ i.kept x out own';
          able =
              nothing-Able e ps
                (subst (λ r. env.sink.able w' sink' (length (handed r ps))) (sym left) able');
          small =
              rest_small room' ps
                (subst (λ r. total r ps < 2 ^ 31) (sym left) (omega (arith, i.small)));
        },
        left,
      )
