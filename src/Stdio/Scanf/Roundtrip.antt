-- ===== src/Stdio/Scanf/Roundtrip.antt =====
-- `sscanf` reads back what `vsnprintf` wrote with the same format.
use nolibc.Prelude.{
  ℕ, ◌+◌, ◌-◌, ◌^◌, ◌≤◌, ◌<◌, ◌≡◌, inl, refl, true, false, some, List, [], ◌∷◌, arith, length,
}
use mathlib.Core.Path.{subst}
use nolibc.Mem.{Mem, CStr}
use nolibc.Mem.Laws.{Apart, CStr-frame, take_all, outside_other}
use nolibc.Sys.World.{World}
use nolibc.Stdio.Printf.{Places}
use nolibc.Stdio.Printf.Family.{vsnprintf}
use nolibc.Stdio.Printf.Plain.{within}
use nolibc.Stdio.Printf.Pieces.{
  Piece, literal, percent, number, text, format_of, args_of, output_of, Given,
}
use nolibc.Stdio.Printf.Handed.{Widthless}
use nolibc.Stdio.Printf.Buffer.{vsnprintf-output}
use nolibc.Stdio.Scanf.{sscanf}
use nolibc.Stdio.Scanf.Reading.{Readable, numbers, stored, Targets}
use nolibc.Stdio.Scanf.Format.{Clear, vsscanf-output_of}

Readable-Widthless : (ps : List Piece) → Readable ps → Widthless ps
Readable-Widthless [] h = tt
Readable-Widthless (literal c ∷ ps) h = (refl, Readable-Widthless ps h.2)
Readable-Widthless (percent ∷ ps) h = (refl, Readable-Widthless ps h)
Readable-Widthless (number [] true k v ∷ ps) h = (refl, Readable-Widthless ps h.3)
Readable-Widthless (number [] false k v ∷ ps) h = (refl, Readable-Widthless ps h.3)
Readable-Widthless (number (d ∷ ds) long k v ∷ ps) h = absurd h
Readable-Widthless (text ds a s ∷ ps) h = absurd h

Readable-Given :
    (m : Mem) (C : ℕ → ℕ → Type 0) (space scan : ℕ) (ps : List Piece)
    → Readable ps
    → Given m C space scan ps
Readable-Given m C space scan [] h = tt
Readable-Given m C space scan (literal c ∷ ps) h = (h.0, Readable-Given m C space scan ps h.2)
Readable-Given m C space scan (percent ∷ ps) h = Readable-Given m C space scan ps h
Readable-Given m C space scan (number [] long k v ∷ ps) h =
    (h.1, tt, Readable-Given m C space scan ps h.3)
Readable-Given m C space scan (number (d ∷ ds) long k v ∷ ps) h = absurd h
Readable-Given m C space scan (text ds a s ∷ ps) h = absurd h

whole_area : (n size : ℕ) → n < size → within (n + 1) size ≡ n + 1
whole_area n size lt = ground arith

module _ {K : Type 0} (at : Places) (scan fuel buf size fmt : ℕ) (ps : List Piece) (w : World K)
    (targets : List ℕ) where
  -- For a format of `%d` and `%u`, with or without one `l`, `%%` and other bytes, where no number
  -- stands in front of a digit and white space stands byte by byte between other bytes, with its
  -- arguments, a text that is shorter than the limit and than 2 ^ 31 bytes, a format clear of the
  -- buffer for numbers and of the text, a place for each number clear of the format and of the text,
  -- and enough fuel: vsnprintf returns the length of the text, and sscanf with the same format reads
  -- all numbers back from the buffer, stores them in their places and nothing else, keeps errno, and
  -- returns how many they are.
  pub sscanf-vsnprintf :
      Readable ps
      → CStr w.mem fmt (format_of ps)
      → Apart at.tmpbuf 21 fmt (length (format_of ps) + 1)
      → Apart buf (length (output_of ps) + 1) fmt (length (format_of ps) + 1)
      → Apart at.tmpbuf 21 buf (length (output_of ps) + 1)
      → at.tmpbuf + 21 < 2 ^ 64
      → fmt + length (format_of ps) < 2 ^ 64
      → buf + (length (output_of ps) + 1) ≤ 2 ^ 64
      → length (format_of ps) < 2 ^ 63
      → length (format_of ps) + length (output_of ps) + 1 < fuel
      → length (format_of ps) < scan
      → 21 ≤ scan
      → length (output_of ps) < 2 ^ 31
      → length (output_of ps) < size
      → size < 2 ^ 64
      → numbers ps < 2 ^ 31
      → Targets (Clear fmt (length (format_of ps)) buf (length (output_of ps))) ps targets
      → (w' : World K) × (vsnprintf at scan fuel buf size fmt (args_of ps) w
          ≡ some (w', length (output_of ps)))
        × (sscanf fuel w'.mem w'.errno buf fmt targets
            ≡ some (stored w'.mem ps targets, w'.errno, numbers ps))
  unfolding sscanf
  sscanf-vsnprintf readable format tmp own apart low high room short f enough wide small fits word
        few places =
      let area = whole_area (length (output_of ps)) size fits in
      let (w', run, there, quiet, same) =
        vsnprintf-output at scan fuel buf size fmt ps w format (rw area apart) low
          (Readable-Given w.mem
            (λ a k.
              Apart at.tmpbuf 21 a k × Apart buf (within (length (output_of ps) + 1) size) a k)
            at.space scan ps readable)
          (tmp, rw area own) high short (omega (arith, f)) enough wide small
          (inl (Readable-Widthless ps readable)) (omega (arith, fits)) word (rw area room) in
      let all_ = take_all (size - 1) (output_of ps) (omega (arith, fits)) in
      let kept = CStr-frame w.mem w'.mem fmt (format_of ps) format (λ a lo hi.
        same a
          (outside_other at.tmpbuf 21 fmt (length (format_of ps) + 1) a tmp lo (omega (arith, hi)))
          (rw area (
            outside_other buf (length (output_of ps) + 1) fmt (length (format_of ps) + 1) a own lo
              (omega (arith, hi))))) in
      (
        w',
        run,
        vsscanf-output_of fuel w'.mem w'.errno buf fmt ps targets readable places kept
            (subst (λ t. CStr w'.mem buf t) all_ there) f few,
      )
