-- ===== src/Ctype.antt =====
-- ctype.h. An `int` is its 32-bit pattern; a test returns whether the C function returns non-zero.
pub mod Classes
use nolibc.Prelude.{ℕ, ◌+◌, ◌-◌, ◌%◌, ◌^◌, Bool, not, ◌&&◌, ◌||◌, ◌==◌, ltb, leb}
use nolibc.Prelude.Words.{sub32}

unfoldable pub isascii : ℕ → Bool
isascii c = leb c 0x7f

unfoldable pub isblank : ℕ → Bool
isblank c = c == b'\t' || c == b' '

unfoldable pub iscntrl : ℕ → Bool
iscntrl c = ltb c 0x20 || c == 0x7f

unfoldable pub isdigit : ℕ → Bool
isdigit c = ltb (sub32 c b'0') 10

unfoldable pub isgraph : ℕ → Bool
isgraph c = ltb (sub32 c 0x21) 0x5e

unfoldable pub islower : ℕ → Bool
islower c = ltb (sub32 c b'a') 26

unfoldable pub isprint : ℕ → Bool
isprint c = ltb (sub32 c 0x20) 0x5f

unfoldable pub isspace : ℕ → Bool
isspace c = c == b' ' || ltb (sub32 c 0x09) 5

unfoldable pub isupper : ℕ → Bool
isupper c = ltb (sub32 c b'A') 26

unfoldable pub isxdigit : ℕ → Bool
unfolding isdigit
isxdigit c = isdigit c || ltb (sub32 c b'A') 6 || ltb (sub32 c b'a') 6

unfoldable pub isalpha : ℕ → Bool
unfolding islower isupper
isalpha c = islower c || isupper c

unfoldable pub isalnum : ℕ → Bool
unfolding isalpha isdigit
isalnum c = isalpha c || isdigit c

unfoldable pub ispunct : ℕ → Bool
unfolding isgraph isalnum
ispunct c = isgraph c && not (isalnum c)
