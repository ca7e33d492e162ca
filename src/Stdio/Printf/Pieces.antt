-- ===== src/Stdio/Printf/Pieces.antt =====
-- What a format of `__nolibc_printf` says: the pieces of a format, the bytes that spell
-- them, the arguments that they take, and the text that they ask for.
use nolibc.Prelude.{
  ℕ, zero, suc, ◌+◌, ◌-◌, ◌%◌, All, ◌^◌, ◌<◌, ◌≡◌, ◌≢◌, Bool, true, false, List, [], ◌∷◌, ◌++◌,
  ◌==◌, if◌then◌else◌, length,
}
use nolibc.Prelude.Words.{extend}
use nolibc.Mem.{Mem, CStr}
use nolibc.Stdlib.Decimal.Spec.{IsDigit, value}
use nolibc.Stdlib.Decimal.Digits.{decimal64}
use nolibc.Stdlib.Decimal.Signed.{signed_decimal}
use nolibc.Stdlib.Hex.Digits.{hex64}

pub data Conversion : Type 0 where
  signed : Conversion
  unsigned : Conversion
  hexadecimal : Conversion
  character : Conversion

-- a byte that stands for itself; `%%`; a number with or without `l`; and `%s`. The last two have the
-- digits of a width, which may be missing
pub data Piece : Type 0 where
  literal : ℕ → Piece
  percent : Piece
  number : List ℕ → Bool → Conversion → ℕ → Piece
  text : List ℕ → ℕ → List ℕ → Piece

abbrev pub letter_of : Conversion → ℕ
letter_of signed = b'd'
letter_of unsigned = b'u'
letter_of hexadecimal = b'x'
letter_of character = b'c'

abbrev pub format_of : List Piece → List ℕ
format_of [] = []
format_of (literal c ∷ ps) = c ∷ format_of ps
format_of (percent ∷ ps) = b'%' ∷ b'%' ∷ format_of ps
format_of (number ds true k v ∷ ps) = b'%' ∷ (ds ++ (b'l' ∷ letter_of k ∷ format_of ps))
format_of (number ds false k v ∷ ps) = b'%' ∷ (ds ++ (letter_of k ∷ format_of ps))
format_of (text ds a s ∷ ps) = b'%' ∷ (ds ++ (b's' ∷ format_of ps))

abbrev pub args_of : List Piece → List ℕ
args_of [] = []
args_of (literal c ∷ ps) = args_of ps
args_of (percent ∷ ps) = args_of ps
args_of (number ds long k v ∷ ps) = v ∷ args_of ps
args_of (text ds a s ∷ ps) = a ∷ args_of ps

-- the text of a number: one without `l` is an `int` or an `unsigned int`, and a zero byte is no text
abbrev pub text_of : Bool → Conversion → ℕ → List ℕ
text_of long signed v = signed_decimal (if long then v else extend (v % 2 ^ 32))
text_of long unsigned v = decimal64 (if long then v else v % 2 ^ 32)
text_of long hexadecimal v = hex64 (if long then v else v % 2 ^ 32)
text_of long character v = if v % 256 == 0 then [] else v % 256 ∷ []

-- the text of a piece, without its padding
abbrev pub said : Piece → List ℕ
said (literal c) = c ∷ []
said percent = b'%' ∷ []
said (number ds long k v) = text_of long k v
said (text ds a s) = s

-- the width that the digits spell, in an `unsigned int`
abbrev pub width : List ℕ → ℕ
width ds = value 0 ds % 2 ^ 32

-- the width of a piece: behind an `l` the code has forgotten it
abbrev pub width_of : Piece → ℕ
width_of (literal c) = 0
width_of percent = 0
width_of (number ds long k v) = if long then 0 else width ds
width_of (text ds a s) = width ds

abbrev pub spaces : ℕ → List ℕ
spaces zero = []
spaces (suc n) = b' ' ∷ spaces n

-- the text that a format asks for: that of each piece, behind spaces up to its width
abbrev pub output_of : List Piece → List ℕ
output_of [] = []
output_of (p ∷ ps) = spaces (width_of p - length (said p)) ++ (said p ++ output_of ps)

-- what padding takes: digits for a width, and the literal " " in memory where the code expects it
abbrev pub Padded : Mem → (ℕ → ℕ → Type 0) → ℕ → List ℕ → Type 0
Padded m clear space [] = Unit
Padded m clear space (d ∷ ds) =
    All IsDigit (d ∷ ds) × (m space ≡ b' ') × clear space 1 × (space + 1 < 2 ^ 64)

-- what the arguments must be: a string stands at its address, clear of what the code writes
abbrev pub Given : Mem → (ℕ → ℕ → Type 0) → ℕ → ℕ → List Piece → Type 0
Given m clear space scan [] = Unit
Given m clear space scan (literal c ∷ ps) = (c ≢ b'%') × Given m clear space scan ps
Given m clear space scan (percent ∷ ps) = Given m clear space scan ps
Given m clear space scan (number ds long k v ∷ ps) =
    (v < 2 ^ 64) × Padded m clear space ds × Given m clear space scan ps
Given m clear space scan (text ds a s ∷ ps) =
    (a ≢ 0)
    × CStr m a s
    × clear a (length s + 1)
    × (a + length s < 2 ^ 64)
    × (length s < scan)
    × Padded m clear space ds
    × Given m clear space scan ps

Padded-weaken :
    (m : Mem) (C D : ℕ → ℕ → Type 0) (space : ℕ) (ds : List ℕ)
    → ((a n : ℕ) → C a n → D a n)
    → Padded m C space ds
    → Padded m D space ds
Padded-weaken m C D space [] f h = tt
Padded-weaken m C D space (d ∷ ds) f h = (h.0, h.1, f space 1 h.2, h.3)

pub Given-weaken :
    (m : Mem) (C D : ℕ → ℕ → Type 0) (space scan : ℕ) (ps : List Piece)
    → ((a n : ℕ) → C a n → D a n)
    → Given m C space scan ps
    → Given m D space scan ps
Given-weaken m C D space scan [] f h = tt
Given-weaken m C D space scan (literal c ∷ ps) f h = (h.0, Given-weaken m C D space scan ps f h.1)
Given-weaken m C D space scan (percent ∷ ps) f h = Given-weaken m C D space scan ps f h
Given-weaken m C D space scan (number ds long k v ∷ ps) f h =
    (h.0, Padded-weaken m C D space ds f h.1, Given-weaken m C D space scan ps f h.2)
Given-weaken m C D space scan (text ds a s ∷ ps) f h = (
  h.0,
  h.1,
  f a (length s + 1) h.2,
  h.3,
  h.4,
  Padded-weaken m C D space ds f h.5,
  Given-weaken m C D space scan ps f h.6,
)

-- the number of `l` in front of the letter
abbrev pub longs : Bool → ℕ
longs long = if long then 1 else 0
