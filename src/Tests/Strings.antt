-- ===== src/Tests/Strings.antt =====
-- Tests of string.h and ctype.h: a memory that holds "hello, hello" at 100 and "hello" at 200.
use nolibc.Prelude.{
  true, ℕ, zero, suc, ◌+◌, ◌-◌, ◌≡◌, ◌≢◌, ◌↔◌, refl, some, List, [], ◌++◌, codes, arith, not, ◌==◌,
  if◌then◌else◌, length, take, drop, replicate,
}
use nolibc.Prelude.Int.{pos}
use nolibc.Mem.{Mem, write_all, Bytes, CStr}
use nolibc.Mem.Laws.{SameOutside}
use nolibc.Ctype.{isdigit, isupper, islower, isascii, iscntrl, isalpha, ispunct}
use nolibc.Ctype.Classes.{count_true, classes-partition}
use nolibc.Str.Block.{memcmp, memmove}
use nolibc.Str.Block.Laws.{copied, memmove-copied}
use nolibc.Str.Block.Compare.{memcmp-zero_iff}
use nolibc.Str.Scan.{null, strlen, strchr, strrchr}
use nolibc.Str.Scan.Laws.{strchr-first, strrchr-last}
use nolibc.Str.Compare.{strcmp, strncmp}
use nolibc.Str.Compare.Laws.{difference, strcmp-zero_iff, strncmp-difference}
use nolibc.Str.Copy.{strlcpy, strlcat, strncat, strncpy}
use nolibc.Str.Copy.Strlcpy.{strlcpy-CStr}
use nolibc.Str.Copy.Strlcat.{strlcat-CStr}
use nolibc.Str.Copy.Strncat.{strncat-CStr}
use nolibc.Str.Copy.Strncpy.{strncpy-padded}
use nolibc.Str.Search.{strstr}
use nolibc.Str.Search.Laws.{strstr-first, strstr-missing}
use nolibc.Str.Case.{tolower, toupper, tolower-toupper}

abbrev greeting : List ℕ
greeting = codes "hello, hello"

abbrev hello : List ℕ
hello = codes "hello"

abbrev memory : Mem
unfolding write_all
memory = write_all (write_all (λ _. 0) 100 greeting) 200 hello

abbrev comma : ℕ
comma = b','

memmove-copied_example :
    ((memmove memory 102 100 12).0 108 ≡ copied memory 102 100 0 12 108)
    × ((memmove memory 102 100 12).1 ≡ 102)
memmove-copied_example = memmove-copied memory 102 100 12 108 (omega arith)

greeting-CStr : CStr memory 100 greeting
unfolding write_all
greeting-CStr = omega arith

hello-CStr : CStr memory 200 hello
unfolding write_all
hello-CStr = omega arith

hello-Bytes : Bytes memory 200 hello
unfolding write_all
hello-Bytes = omega arith

memcmp-zero_iff_example : (memcmp memory 100 200 5 ≡ pos 0) ↔ (hello ≡ hello)
memcmp-zero_iff_example =
    memcmp-zero_iff memory 100 200 5 hello hello hello-front hello-Bytes refl refl
  where
    hello-front : Bytes memory 100 hello
    hello-front = unfold write_all in omega arith

strchr-first_example : strchr 20 memory 100 comma ≡ some (100 + length hello)
strchr-first_example =
    strchr-first memory comma 20 100 hello (codes " hello") (omega arith) greeting-CStr
      (omega arith)

strrchr-last_example : strrchr 20 memory 100 b'h' ≡ some (100 + length (codes "hello, "))
strrchr-last_example =
    strrchr-last memory b'h' 20 100 (codes "hello, ") (codes "ello") (omega arith) greeting-CStr
      (omega arith)

strcmp-zero_iff_example : (strcmp 20 memory 107 200 ≡ some (pos 0)) ↔ (hello ≡ hello)
strcmp-zero_iff_example =
    strcmp-zero_iff 20 memory 107 200 hello hello tail hello-CStr (omega arith)
  where
    tail : CStr memory 107 hello
    tail = unfold write_all in omega arith

strncmp-difference_example : strncmp memory 100 200 5 ≡ difference (take 5 greeting) (take 5 hello)
strncmp-difference_example =
    strncmp-difference memory 100 200 greeting hello 5 greeting-CStr hello-CStr

strlcpy-CStr_example :
    (m' : Mem) × (strlcpy 20 memory 300 100 6 ≡ some (m', length greeting))
    × CStr m' 300 (take (6 - 1) greeting)
    × SameOutside 300 6 memory m'
strlcpy-CStr_example =
    strlcpy-CStr 20 memory 300 100 greeting 6 greeting-CStr (omega arith) (omega arith)
      (omega arith)

strlcat-CStr_example :
    (m' : Mem) × (strlcat 20 memory 200 100 9 ≡ some (m', length hello + length greeting))
    × CStr m' 200 (hello ++ take (9 - 1 - length hello) greeting)
    × SameOutside (200 + length hello) (9 - length hello) memory m'
strlcat-CStr_example =
    strlcat-CStr 20 memory 200 100 hello greeting 9 hello-CStr greeting-CStr (omega arith)
      (omega arith) (omega arith)

strncat-CStr_example :
    (m' : Mem) × (strncat 20 memory 200 100 3 ≡ some (m', 200))
    × CStr m' 200 (hello ++ take 3 greeting)
    × SameOutside (200 + length hello) (length (take 3 greeting) + 1) memory m'
strncat-CStr_example =
    strncat-CStr 20 memory 200 100 hello greeting 3 hello-CStr greeting-CStr (omega arith)
      (omega arith)

strncpy-padded_example :
    Bytes (strncpy memory 300 200 8).0 300 (take 8 hello ++ replicate (8 - length hello) 0)
    × SameOutside 300 8 memory (strncpy memory 300 200 8).0
strncpy-padded_example = strncpy-padded memory 300 200 hello 8 hello-CStr (omega arith)

strstr-first_example : strstr 20 memory 100 200 ≡ some (100 + 0)
strstr-first_example =
    strstr-first 20 memory 100 200 [] hello (codes ", hello") greeting-CStr hello-CStr (omega arith)
      (λ i lt. absurd (omega arith)) (omega arith)

strstr-missing_example : strstr 20 memory 112 200 ≡ some null
strstr-missing_example =
    strstr-missing 20 memory 112 200 [] hello end hello-CStr (omega arith) nowhere (omega arith)
      (omega arith)
  where
    end : CStr memory 112 []
    end = unfold write_all in refl

    nowhere : (i : ℕ) → take (length hello) (drop i []) ≢ hello
    nowhere zero = ground arith
    nowhere (suc i) = ground arith

classes-partition_example :
    count_true (iscntrl b'x')
      + count_true (b'x' == b' ')
      + count_true (isdigit b'x')
      + count_true (isupper b'x')
      + count_true (islower b'x')
      + count_true (ispunct b'x')
      + count_true (not (isascii b'x'))
    ≡ 1
classes-partition_example = classes-partition b'x' (omega arith)

tolower-toupper_example :
    (tolower b'Q' ≡ (if isupper b'Q' then b'Q' + 32 else b'Q'))
    × (toupper b'Q' ≡ (if islower b'Q' then b'Q' - 32 else b'Q'))
    × (isupper b'Q' ≡ true → toupper (tolower b'Q') ≡ b'Q')
    × (islower b'Q' ≡ true → tolower (toupper b'Q') ≡ b'Q')
    × (toupper (tolower b'Q') ≡ toupper b'Q')
    × (tolower (toupper b'Q') ≡ tolower b'Q')
    × (isalpha (tolower b'Q') ≡ isalpha b'Q')
tolower-toupper_example = tolower-toupper b'Q' (omega arith)

-- A tail of the text, the search for a byte and the comparison, run.
runs :
    (strlen 20 memory 100 ≡ some 12)
    × (strchr 20 memory 100 comma ≡ some 105)
    × (strcmp 20 memory 107 200 ≡ some (pos 0))
    × (strstr 20 memory 101 200 ≡ some 107)
unfolding strlen strchr strcmp strstr memcmp write_all
runs = (refl, refl, refl, refl)
