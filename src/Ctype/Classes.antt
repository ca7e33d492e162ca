-- ===== src/Ctype/Classes.antt =====
-- The classes of characters against their ranges, and how they lie to each other.
use nolibc.Prelude.{ℕ, ◌+◌, ◌^◌, ◌<◌, ◌≡◌, Bool, true, false, ◌||◌, ◌&&◌, not, arith, leb, ◌==◌}
use nolibc.Ctype.{
  isascii, isblank, iscntrl, isdigit, isgraph, islower, isprint, isspace, isupper, isxdigit,
  isalnum, ispunct,
}

abbrev pub count_true : Bool → ℕ
count_true true = 1
count_true false = 0

module _ (c : ℕ) (range : c < 2 ^ 32) where
  -- Of every int exactly one holds: control character, the space character, digit, upper-case
  -- letter, lower-case letter, punctuation, or no ASCII character.
  pub classes-partition :
      count_true (iscntrl c)
        + count_true (c == b' ')
        + count_true (isdigit c)
        + count_true (isupper c)
        + count_true (islower c)
        + count_true (ispunct c)
        + count_true (not (isascii c))
      ≡ 1
  unfolding iscntrl isdigit isupper islower ispunct isascii
  classes-partition = ground arith

  -- A printing character is a graphic one or the blank; a graphic one is a letter, a digit or
  -- punctuation; and white space is the blank and the five characters from tab to return.
  pub classes-unions :
      (isprint c ≡ (isgraph c || c == b' '))
      × (isgraph c ≡ (isalnum c || ispunct c))
      × (isspace c ≡ (isblank c || (leb 10 c && leb c 13)))
      × (isascii c ≡ (isprint c || iscntrl c))
  unfolding isprint isgraph isalnum ispunct isspace isblank isascii iscntrl
  classes-unions = (ground arith, ground arith, ground arith, ground arith)

  -- The tests by a subtraction that wraps around decide the ranges that they stand for, of every
  -- `int`, also of a negative one.
  pub classes-ranges :
      (isdigit c ≡ (leb b'0' c && leb c b'9'))
      × (isupper c ≡ (leb b'A' c && leb c b'Z'))
      × (islower c ≡ (leb b'a' c && leb c b'z'))
      × (isgraph c ≡ (leb b'!' c && leb c b'~'))
      × (isxdigit c ≡ (
          (leb b'0' c && leb c b'9') || (leb b'A' c && leb c b'F') || (leb b'a' c && leb c b'f')))
  unfolding isdigit isupper islower isgraph isxdigit
  classes-ranges = (ground arith, ground arith, ground arith, ground arith, ground arith)
