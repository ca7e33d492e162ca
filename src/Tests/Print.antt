-- ===== src/Tests/Print.antt =====
-- The printf family on formats with each kind of directive: `vdprintf` over a kernel that takes at most
-- two bytes of a write, and `vsnprintf` into a buffer that is too short.
use nolibc.Prelude.{
  ℕ, ◌+◌, ◌-◌, ◌^◌, ◌≤◌, ◌<◌, ◌≡◌, ◌⊎◌, refl, inl, inr, List, [], ◌∷◌, some, true, false, arith,
  length, codes,
}
use nolibc.Mem.{CStr, write_all}
use nolibc.Mem.Laws.{SameOutside, Apart}
use nolibc.Sys.World.{World}
use nolibc.Tests.Calls.{numbers}
use nolibc.Tests.Kernels.{slow, slow-Accepts, places}
use nolibc.Stdio.Printf.Family.{vsnprintf, vdprintf}
use nolibc.Stdio.Printf.Pieces.{
  Piece, literal, percent, number, text, signed, hexadecimal, character, format_of, args_of,
  output_of, Given,
}
use nolibc.Stdio.Printf.Output.{vdprintf-output}
use nolibc.Stdio.Printf.Buffer.{vsnprintf-output}

-- "%6s=%4d%%%lx%c", with the string "load" at 100, -5, 0x1f and an exclamation mark
abbrev pieces : List Piece
pieces =
    text (codes "6") 100 (codes "load")
    ∷ literal b'='
    ∷ number (codes "4") false signed (2 ^ 32 - 5)
    ∷ percent
    ∷ number [] true hexadecimal 0x1f
    ∷ number [] false character b'!'
    ∷ []

abbrev begin : World (List ℕ)
unfolding write_all
begin = record {
  mem =
      write_all (write_all (write_all (λ _. 0) 100 (codes "load")) 230 (codes " ")) 300
        (codes "%6s=%4d%%%lx%c");
  errno = 7;
  kernel = [];
}

pieces-format_of : format_of pieces ≡ codes "%6s=%4d%%%lx%c"
pieces-format_of = refl

pieces-output_of : output_of pieces ≡ codes "  load=  -5%1f!"
pieces-output_of = refl

format-CStr : CStr begin.mem 300 (format_of pieces)
unfolding write_all
format-CStr = ground arith

pieces-Given : Given begin.mem (Apart 200 21) 230 50 pieces
unfolding write_all
pieces-Given = ground arith

vdprintf-output_example :
    (w' : World (List ℕ)) × (vdprintf places 50 20 numbers slow 1 300 (args_of pieces) begin
      ≡ some (w', length (output_of pieces)))
    × (w'.kernel ≡ output_of pieces)
    × (w'.errno ≡ 7)
    × SameOutside 200 21 begin.mem w'.mem
unfolding begin
vdprintf-output_example =
    vdprintf-output places 50 20 numbers slow (λ k. k) 1 slow-Accepts (omega arith) 300 pieces begin
      format-CStr pieces-Given (inl (omega arith)) (omega arith) (omega arith) (omega arith)
      (omega arith) (omega arith) (omega arith) (omega arith)

-- "%s=%d"
abbrev short_pieces : List Piece
short_pieces = text [] 100 (codes "load") ∷ literal b'=' ∷ number [] false signed (2 ^ 32 - 5) ∷ []

abbrev short_begin : World (List ℕ)
unfolding write_all
short_begin = record {
  mem = write_all (write_all (λ _. 0) 100 (codes "load")) 300 (codes "%s=%d");
  errno = 7;
  kernel = [];
}

short_format-CStr : CStr short_begin.mem 300 (format_of short_pieces)
unfolding write_all
short_format-CStr = ground arith

short_pieces-Given :
    Given short_begin.mem (λ a k. Apart 200 21 a k × Apart 500 6 a k) 230 50 short_pieces
unfolding write_all
short_pieces-Given = ground arith

vsnprintf-output_example :
    (w' : World (List ℕ)) × (vsnprintf places 50 20 500 6 300 (args_of short_pieces) short_begin
      ≡ some (w', 7))
    × CStr w'.mem 500 (codes "load=")
    × (w'.errno ≡ 7)
    × ((a : ℕ)
        → (a < 200) ⊎ (200 + 21 ≤ a)
        → (a < 500) ⊎ (500 + 6 ≤ a)
        → w'.mem a ≡ short_begin.mem a)
unfolding short_begin
vsnprintf-output_example =
    vsnprintf-output places 50 20 500 6 300 short_pieces short_begin short_format-CStr
      (inl (omega arith)) (omega arith) short_pieces-Given (inl (omega arith), inr (omega arith))
      (omega arith) (omega arith) (omega arith) (omega arith) (omega arith) (omega arith)
      (inl (refl, (refl, (refl, tt)))) (omega arith) (omega arith) (omega arith)
