-- ===== src/Tests/Scan.antt =====
-- `vsscanf` on a text of its format, and `sscanf` on what `vsnprintf` wrote.
use nolibc.Prelude.{
  ℕ, ◌-◌, ◌^◌, ◌≡◌, refl, inl, inr, List, [], ◌∷◌, some, true, false, arith, codes,
}
use nolibc.Ctype.{isspace}
use nolibc.Mem.{CStr, Mem, write_all}
use nolibc.Sys.World.{World}
use nolibc.Tests.Kernels.{places}
use nolibc.Stdio.Printf.Family.{vsnprintf}
use nolibc.Stdio.Printf.Pieces.{
  Piece, literal, percent, number, signed, unsigned, format_of, args_of, output_of,
}
use nolibc.Stdio.Scanf.{vsscanf, sscanf}
use nolibc.Stdio.Scanf.Reading.{Readable, stored}
use nolibc.Stdio.Scanf.Format.{vsscanf-output_of}
use nolibc.Stdio.Scanf.Roundtrip.{sscanf-vsnprintf}

-- "%d, %lu%%", with -5 and 1234
abbrev pieces : List Piece
pieces =
    number [] false signed (2 ^ 32 - 5)
    ∷ literal b','
    ∷ literal b' '
    ∷ number [] true unsigned 1234
    ∷ percent
    ∷ []

pieces-format_of : format_of pieces ≡ codes "%d, %lu%%"
pieces-format_of = refl

pieces-output_of : output_of pieces ≡ codes "-5, 1234%"
pieces-output_of = refl

pieces-Readable : Readable pieces
unfolding isspace
pieces-Readable = (
  tt,
  omega arith,
  inl (omega arith),
  (
    omega arith,
    inl refl,
    (omega arith, inr (refl, refl, refl), (tt, omega arith, inl (omega arith), tt)),
  ),
)

abbrev memory : Mem
unfolding write_all
memory = write_all (write_all (λ _. 0) 300 (codes "%d, %lu%%")) 500 (codes "-5, 1234%")

format-CStr : CStr memory 300 (format_of pieces)
unfolding write_all
format-CStr = ground arith

text-CStr : CStr memory 500 (output_of pieces)
unfolding write_all
text-CStr = ground arith

vsscanf-output_of_example :
    vsscanf 30 memory 7 500 300 (700 ∷ 800 ∷ [])
    ≡ some (stored memory pieces (700 ∷ 800 ∷ []), 7, 2)
vsscanf-output_of_example =
    vsscanf-output_of 30 memory 7 500 300 pieces (700 ∷ 800 ∷ []) pieces-Readable
      ((inr (omega arith), inr (omega arith)), ((inr (omega arith), inr (omega arith)), tt))
      format-CStr text-CStr (omega arith) (omega arith)

abbrev begin : World (List ℕ)
unfolding write_all
begin = record { mem = write_all (λ _. 0) 300 (codes "%d, %lu%%"); errno = 7; kernel = [] }

begin-CStr : CStr begin.mem 300 (format_of pieces)
unfolding write_all
begin-CStr = ground arith

sscanf-vsnprintf_example :
    (w' : World (List ℕ)) × (vsnprintf places 30 30 500 32 300 (args_of pieces) begin
      ≡ some (w', 9))
    × (sscanf 30 w'.mem w'.errno 500 300 (700 ∷ 800 ∷ [])
        ≡ some (stored w'.mem pieces (700 ∷ 800 ∷ []), w'.errno, 2))
sscanf-vsnprintf_example =
    sscanf-vsnprintf places 30 30 500 32 300 pieces begin (700 ∷ 800 ∷ []) pieces-Readable
      begin-CStr (inl (omega arith)) (inr (omega arith)) (inl (omega arith)) (omega arith)
      (omega arith) (omega arith) (omega arith) (omega arith) (omega arith) (omega arith)
      (omega arith) (omega arith) (omega arith) (omega arith)
      ((inr (omega arith), inr (omega arith)), ((inr (omega arith), inr (omega arith)), tt))
