-- ===== src/Stdio/Printf/Nonzero.antt =====
-- The text that a format asks for holds no zero byte.
use nolibc.Prelude.{
  ℕ, zero, suc, ◌%◌, ◌^◌, ◌-◌, ◌<◌, ◌≢◌, Bool, true, false, List, [], ◌∷◌, ◌++◌, arith, ◌==◌,
  All-append, length, inl, inr, Bool-cases,
}
use nolibc.Prelude.Words.{extend}
use nolibc.Mem.{Mem}
use nolibc.Str.Compare.Laws.{NonZero, NonZero-CStr}
use nolibc.Stdlib.Decimal.Digits.{decimal64-NonZero}
use nolibc.Stdlib.Decimal.Signed.{signed_decimal-NonZero}
use nolibc.Stdlib.Hex.Digits.{hexadecimal-NonZero}
use nolibc.Stdio.Printf.Pieces.{
  Piece, literal, percent, number, text, Conversion, signed, unsigned, hexadecimal, character,
  letter_of, format_of, text_of, said, width_of, spaces, output_of, Given,
}

spaces-NonZero : (n : ℕ) → NonZero (spaces n)
spaces-NonZero zero = tt
spaces-NonZero (suc n) = (omega arith, spaces-NonZero n)

text_of-NonZero : (long : Bool) (k : Conversion) (v : ℕ) → v < 2 ^ 64 → NonZero (text_of long k v)
text_of-NonZero true signed v lt = signed_decimal-NonZero v lt
text_of-NonZero false signed v lt = signed_decimal-NonZero (extend (v % 2 ^ 32)) (ground arith)
text_of-NonZero true unsigned v lt = decimal64-NonZero v lt
text_of-NonZero false unsigned v lt = decimal64-NonZero (v % 2 ^ 32) (omega arith)
text_of-NonZero true hexadecimal v lt = hexadecimal-NonZero 15 v
text_of-NonZero false hexadecimal v lt = hexadecimal-NonZero 15 (v % 2 ^ 32)
text_of-NonZero long character v lt = elim (Bool-cases (v % 256 == 0)) [
  | inl e ↦ rw e tt
  | inr e ↦ rw e (ground arith)
]

behind_digits : (ds s : List ℕ) → NonZero (ds ++ s) → NonZero s
behind_digits [] s h = h
behind_digits (d ∷ ds) s h = behind_digits ds s h.1

pub output_of-NonZero :
    (m : Mem) (C : ℕ → ℕ → Type 0) (space scan : ℕ) (ps : List Piece)
    → NonZero (format_of ps)
    → Given m C space scan ps
    → NonZero (output_of ps)
output_of-NonZero m C space scan [] f g = tt
output_of-NonZero m C space scan (literal c ∷ ps) f g =
    (f.0, output_of-NonZero m C space scan ps f.1 g.1)
output_of-NonZero m C space scan (percent ∷ ps) f g =
    (omega arith, output_of-NonZero m C space scan ps f.1.1 g)
output_of-NonZero m C space scan (number ds true k v ∷ ps) f g =
    let piece = number ds true k v in
    All-append (λ c. c ≢ 0) (spaces (width_of piece - length (said piece)))
      (said piece ++ output_of ps) (spaces-NonZero _)
      (All-append (λ c. c ≢ 0) (said piece) (output_of ps) (text_of-NonZero true k v g.0)
        (output_of-NonZero m C space scan ps
          (behind_digits ds (b'l' ∷ letter_of k ∷ format_of ps) f.1).1.1 g.2))
output_of-NonZero m C space scan (number ds false k v ∷ ps) f g =
    let piece = number ds false k v in
    All-append (λ c. c ≢ 0) (spaces (width_of piece - length (said piece)))
      (said piece ++ output_of ps) (spaces-NonZero _)
      (All-append (λ c. c ≢ 0) (said piece) (output_of ps) (text_of-NonZero false k v g.0)
        (output_of-NonZero m C space scan ps (behind_digits ds (letter_of k ∷ format_of ps) f.1).1
          g.2))
output_of-NonZero m C space scan (text ds a s ∷ ps) f g =
    All-append (λ c. c ≢ 0) (spaces (width_of (text ds a s) - length s)) (s ++ output_of ps)
      (spaces-NonZero _)
      (All-append (λ c. c ≢ 0) s (output_of ps) (NonZero-CStr m a s g.1)
        (output_of-NonZero m C space scan ps (behind_digits ds (b's' ∷ format_of ps) f.1).1 g.6))
