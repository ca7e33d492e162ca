-- ===== src/Stdio/Scanf/Format.antt =====
-- `vsscanf` over a whole format.
use nolibc.Prelude.{
  ℕ, zero, suc, ◌+◌, ◌-◌, ◌%◌, ◌^◌, ◌≤◌, ◌<◌, ◌≡◌, ◌∙◌, inl, inr, refl, ap, Bool, true, false, some,
  List, [], ◌∷◌, ◌++◌, arith, length, length-append, if◌then◌else◌,
}
use mathlib.Core.Path.{subst}
use nolibc.Mem.{Mem, CStr}
use nolibc.Mem.Laws.{Apart, CStr-frame, CStr-behind, outside_other}
use nolibc.Stdio.Printf.Pieces.{
  Piece, literal, percent, number, text, Conversion, format_of, output_of, text_of, width_of,
  spaces,
}
use nolibc.Stdio.Scanf.{Scanner, scan_round, scan_loop, vsscanf}
use nolibc.Stdio.Scanf.Patterns.{put, scan_round-number}
use nolibc.Stdio.Scanf.Reading.{
  Readable, numbers, stored, Targets, put-outside, scan_more, scan_round-solid, scan_round-blank,
  scan_round-percent, scan_round-end,
}

no_width : (long : Bool) (n : ℕ) → (if long then 0 else 0) - n ≡ 0
no_width true n = omega arith
no_width false n = omega arith

-- a number without a width is its text
output_of-number :
    (long : Bool) (k : Conversion) (v : ℕ) (ps : List Piece)
    → output_of (number [] long k v ∷ ps) ≡ text_of long k v ++ output_of ps
output_of-number long k v ps =
    let none_ : width_of (number [] long k v) - length (text_of long k v) ≡ 0 =
      no_width long (length (text_of long k v)) in
    ap (λ n. spaces n ++ (text_of long k v ++ output_of ps)) none_

-- where the format goes on behind a number
behind_number :
    (long : Bool) (k : Conversion) (v : ℕ) (ps : List Piece) (m : Mem) (p : ℕ)
    → CStr m p (format_of (number [] long k v ∷ ps))
    → (n : ℕ) × (0 < n)
      × ((if long then p + 1 + 1 + 1 else p + 1 + 1) ≡ p + n)
      × (length (format_of (number [] long k v ∷ ps)) ≡ n + length (format_of ps))
      × CStr m (if long then p + 1 + 1 + 1 else p + 1 + 1) (format_of ps)
behind_number true k v ps m p h = (3, omega arith, omega arith, omega arith, h.2.2.2)
behind_number false k v ps m p h = (2, omega arith, omega arith, omega arith, h.2.2)

-- there is a place for a number
target_of :
    (C : ℕ → ℕ → Type 0) (long : Bool) (k : Conversion) (v : ℕ) (ps : List Piece) (args : List ℕ)
    → Targets C (number [] long k v ∷ ps) args
    → (t : ℕ) × (targets : List ℕ) × (args ≡ t ∷ targets)
      × C t (if long then 8 else 4)
      × Targets C ps targets
target_of C long k v ps [] h = absurd h
target_of C long k v ps (t ∷ targets) h = (t, targets, refl, h.0, h.1)

module _ (fmt0 len0 str0 size0 : ℕ) where
  -- clear of the format and of the text
  abbrev pub Clear : ℕ → ℕ → Type 0
  Clear a n = Apart a n fmt0 (len0 + 1) × Apart a n str0 (size0 + 1)

  -- in front of the pieces `ps`, in the format and in the text
  pub record Facing (s : Scanner) (ps : List Piece) : Type 0 where
    pub readable : Readable ps
    pub targets : Targets Clear ps s.args
    pub format : CStr s.mem s.format (format_of ps)
    pub text : CStr s.mem s.str (output_of ps)
    pub begin : (fmt0 ≤ s.format) × (str0 ≤ s.str)
    pub end :
        (s.format + length (format_of ps) ≤ fmt0 + len0)
        × (s.str + length (output_of ps) ≤ str0 + size0)
    pub small : s.matches + numbers ps < 2 ^ 32

  -- the loop ends behind the stores of the numbers that are left
  abbrev Reads : ℕ → Scanner → List Piece → Type 0
  Reads fuel s ps =
      (final : Scanner) × (scan_loop fuel s ≡ some final)
      × (final.mem ≡ stored s.mem ps s.args)
      × (final.errno ≡ s.errno)
      × (final.matches ≡ s.matches + numbers ps)

  -- a byte that stands for itself
  literal-Reads :
      (fuel : ℕ) (s : Scanner) (c : ℕ) (ps : List Piece)
      → Facing s (literal c ∷ ps)
      → 0 < fuel
      → scan_round (suc fuel) s ≡ some (true, record s { format = s.format + 1; str = s.str + 1 })
  literal-Reads fuel s c ps i f = elim i.readable.1 [
    | inl solid ↦ scan_round-solid (suc fuel) s c i.format.0 i.text.0 i.readable.0 i.format.1 solid
    | inr (blank, fs, ts) ↦
        scan_round-blank (suc fuel) s c (format_of ps) (output_of ps) i.format i.text i.readable.0
          blank fs ts (omega (arith, f))
  ]

  -- a number: the round that reads it, and the state behind
  number-Facing :
      (fuel : ℕ) (s : Scanner) (long : Bool) (k : Conversion) (v : ℕ) (ps : List Piece)
      → Facing s (number [] long k v ∷ ps)
      → length (output_of (number [] long k v ∷ ps)) < fuel
      → (s' : Scanner) × (scan_round fuel s ≡ some (true, s'))
        × Facing s' ps
        × (stored s'.mem ps s'.args ≡ stored s.mem (number [] long k v ∷ ps) s.args)
        × (s'.errno ≡ s.errno)
        × (s'.matches ≡ s.matches + 1)
  number-Facing fuel s long k v ps i f =
      let (scanned, lt, stop, readable) = i.readable in
      let (t, targets, given, (clear_format, clear_text), rest) =
        target_of Clear long k v ps s.args i.targets in
      let (n, pos_, place, size, after) = behind_number long k v ps s.mem s.format i.format in
      let spelled = output_of-number long k v ps in
      let sizes = ap length spelled ∙ length-append (text_of long k v) (output_of ps) in
      let there = subst (λ x. CStr s.mem s.str x) spelled i.text in
      let s' : Scanner = record {
        mem = put long s.mem t v;
        errno = s.errno;
        str = s.str + length (text_of long k v);
        format = if long then s.format + 1 + 1 + 1 else s.format + 1 + 1;
        matches = (s.matches + 1) % 2 ^ 32;
        args = targets;
      } in
      (
        s',
        scan_round-number fuel s v t targets (output_of ps) ps lt given stop long k scanned i.format
            there (omega (arith, f, sizes)),
        record {
          readable = readable;
          targets = rest;
          format = CStr-frame s.mem s'.mem s'.format (format_of ps) after (λ a lo hi.
              put-outside long s.mem t v a (
                outside_other t (if long then 8 else 4) fmt0 (len0 + 1) a clear_format
                  (omega (arith, lo, place, i.begin)) (omega (arith, hi, place, size, i.end))));
          text =
              CStr-frame s.mem s'.mem s'.str (output_of ps)
                (CStr-behind s.mem s.str (text_of long k v) (output_of ps) there)
                (λ a lo hi. put-outside long s.mem t v a (
                  outside_other t (if long then 8 else 4) str0 (size0 + 1) a clear_text
                    (omega (arith, lo, i.begin)) (omega (arith, hi, sizes, i.end))));
          begin = (omega (arith, i.begin, place), omega (arith, i.begin));
          end = (omega (arith, i.end, place, size), omega (arith, i.end, sizes));
          small = omega (arith, i.small);
        },
        rw given refl,
        refl,
        omega (arith, i.small),
      )

  pieces-Reads :
      (ps : List Piece) (fuel : ℕ) (s : Scanner)
      → Facing s ps
      → length (format_of ps) + length (output_of ps) + 1 < fuel
      → Reads fuel s ps
  unfolding scan_loop
  pieces-Reads ps zero s i f = absurd (omega arith)
  pieces-Reads [] (suc fuel) s i f =
      (s, rw (scan_round-end (suc fuel) s i.format) refl, refl, refl, omega arith)
  pieces-Reads (literal c ∷ ps) (suc fuel) s i f =
      let s' = record s { format = s.format + 1; str = s.str + 1 } in
      let (final, run, m, e, n) =
        pieces-Reads ps fuel s'
          (record {
            readable = i.readable.2;
            targets = i.targets;
            format = i.format.2;
            text = i.text.2;
            begin = (omega (arith, i.begin), omega (arith, i.begin));
            end = (omega (arith, i.end), omega (arith, i.end));
            small = i.small;
          })
          (omega (arith, f)) in
      (final, scan_more fuel s s' (literal-Reads fuel s c ps i (omega (arith, f))) ∙ run, m, e, n)
  pieces-Reads (percent ∷ ps) (suc fuel) s i f =
      let s' = record s { str = s.str + 1; format = s.format + 1 + 1 } in
      let (final, run, m, e, n) =
        pieces-Reads ps fuel s'
          (record {
            readable = i.readable;
            targets = i.targets;
            format = i.format.2.2;
            text = i.text.2;
            begin = (omega (arith, i.begin), omega (arith, i.begin));
            end = (omega (arith, i.end), omega (arith, i.end));
            small = i.small;
          })
          (omega (arith, f)) in
      (
        final,
        scan_more fuel s s'
              (scan_round-percent (suc fuel) s (format_of ps) (output_of ps) i.format i.text)
            ∙ run,
        m,
        e,
        n,
      )
  pieces-Reads (number [] long k v ∷ ps) (suc fuel) s i f =
      let (s', r, i', same, quiet, count) =
        number-Facing (suc fuel) s long k v ps i (omega (arith, f)) in
      let (a, pos_, place, size, after) = behind_number long k v ps s.mem s.format i.format in
      let sizes =
        ap length (output_of-number long k v ps)
        ∙ length-append (text_of long k v) (output_of ps) in
      let (final, run, m, e, n) =
        pieces-Reads ps fuel s' i' (omega (arith, f, size, sizes, pos_)) in
      (final, scan_more fuel s s' r ∙ run, m ∙ same, e ∙ quiet, omega (arith, n, count))
  pieces-Reads (number (d ∷ ds) long k v ∷ ps) (suc fuel) s i f = absurd i.readable
  pieces-Reads (text ds a t ∷ ps) (suc fuel) s i f = absurd i.readable

-- For a text that is what printf makes of a format of `%d` and `%u`, with or without one `l`, `%%` and
-- other bytes, where no number stands in front of a digit and white space stands byte by byte between
-- other bytes, with a place for each number that is clear of the format and of the text, and given more
-- fuel than both have bytes: vsscanf terminates, stores each number in its place, as an int or a long,
-- changes nothing else and keeps errno, and returns how many numbers there are.
pub vsscanf-output_of :
    (fuel : ℕ) (m : Mem) (errno str fmt : ℕ) (ps : List Piece) (targets : List ℕ)
    → Readable ps
    → Targets (Clear fmt (length (format_of ps)) str (length (output_of ps))) ps targets
    → CStr m fmt (format_of ps)
    → CStr m str (output_of ps)
    → length (format_of ps) + length (output_of ps) + 1 < fuel
    → numbers ps < 2 ^ 31
    → vsscanf fuel m errno str fmt targets ≡ some (stored m ps targets, errno, numbers ps)
unfolding vsscanf
vsscanf-output_of fuel m errno str fmt ps targets readable places format there f few =
    let start : Scanner = record {
      mem = m;
      errno = errno;
      str = str;
      format = fmt;
      matches = 0;
      args = targets;
    } in
    let (final, run, e, quiet, n) =
      pieces-Reads fmt (length (format_of ps)) str (length (output_of ps)) ps fuel start
        (record {
          readable = readable;
          targets = places;
          format = format;
          text = there;
          begin = (omega arith, omega arith);
          end = (omega arith, omega arith);
          small = omega (arith, few);
        })
        f in
    let whole : final.matches ≡ numbers ps = omega (arith, n) in
    rw run (rw e (rw quiet (rw whole refl)))
