-- ===== src/Stdio/Printf/Conversions.antt =====
-- What `convert` makes of a number, and what a directive makes of its argument.
use nolibc.Prelude.{
  ℕ, ◌+◌, ◌%◌, ◌^◌, ◌≤◌, ◌<◌, ◌≡◌, ◌≢◌, refl, Bool, true, false, some, List, [], ◌∷◌, ◌++◌, ◌==◌,
  if◌then◌else◌, arith, length, inl, inr, Bool-cases, ne→==, ◌>>=◌, leb, ◌&&◌, ap,
}
use mathlib.Core.Path.{subst}
use nolibc.Prelude.Words.{extend}
use nolibc.Mem.{Mem, poke, write_all, CStr}
use nolibc.Mem.Laws.{SameOutside, SameOutside-terminated, CStr-write_all}
use nolibc.Str.Compare.Laws.{NonZero}
use nolibc.Stdlib.Decimal.Spec.{length-decimal}
use nolibc.Stdlib.Decimal.Digits.{decimal64, u64toa_r-write_all, decimal64-NonZero}
use nolibc.Stdlib.Decimal.Signed.{
  signed_decimal, i64toa_r-write_all, signed_decimal-NonZero, length-signed_decimal,
}
use nolibc.Stdlib.Hex.Digits.{hex64, u64toh_r-write_all, hexadecimal-NonZero, length-hexadecimal}
use nolibc.Stdio.Printf.{Places, Printer, emit, numeric, convert, directive, numeric_directive}
use nolibc.Stdio.Printf.Pieces.{
  Conversion, signed, unsigned, hexadecimal, character, letter_of, text_of, longs,
}

-- what `convert` leaves in `tmpbuf`
abbrev pub Converted : Mem → ℕ → List ℕ → Mem → Type 0
Converted m tmpbuf s m' = CStr m' tmpbuf s × (length s ≤ 20) × SameOutside tmpbuf 21 m m'

stored-Converted :
    (m : Mem) (tmpbuf : ℕ) (s : List ℕ)
    → NonZero s
    → length s ≤ 20
    → Converted m tmpbuf s (write_all m tmpbuf (s ++ 0 ∷ []))
stored-Converted m tmpbuf s nz le =
    (CStr-write_all m tmpbuf s nz, le, λ a out. SameOutside-terminated m tmpbuf s a (omega arith))

signed_text :
    (m : Mem) (tmpbuf v : ℕ)
    → v < 2 ^ 64
    → (m' : Mem) × (convert m tmpbuf b'd' v ≡ some m') × Converted m tmpbuf (signed_decimal v) m'
unfolding convert
signed_text m tmpbuf v lt = (
  write_all m tmpbuf (signed_decimal v ++ 0 ∷ []),
  rw (i64toa_r-write_all m v tmpbuf lt) refl,
  stored-Converted m tmpbuf (signed_decimal v) (signed_decimal-NonZero v lt)
      (length-signed_decimal v lt),
)

unsigned_text :
    (m : Mem) (tmpbuf v : ℕ)
    → v < 2 ^ 64
    → (m' : Mem) × (convert m tmpbuf b'u' v ≡ some m') × Converted m tmpbuf (decimal64 v) m'
unfolding convert
unsigned_text m tmpbuf v lt = (
  write_all m tmpbuf (decimal64 v ++ 0 ∷ []),
  rw (u64toa_r-write_all m v tmpbuf lt) refl,
  stored-Converted m tmpbuf (decimal64 v) (decimal64-NonZero v lt) (length-decimal 19 v).1,
)

hex_text :
    (m : Mem) (tmpbuf v : ℕ)
    → v < 2 ^ 64
    → (m' : Mem) × (convert m tmpbuf b'x' v ≡ some m') × Converted m tmpbuf (hex64 v) m'
unfolding convert
hex_text m tmpbuf v lt = (
  write_all m tmpbuf (hex64 v ++ 0 ∷ []),
  rw (u64toh_r-write_all m v tmpbuf lt) refl,
  stored-Converted m tmpbuf (hex64 v) (hexadecimal-NonZero 15 v)
      (omega (arith, (length-hexadecimal 15 v).1)),
)

character_text :
    (m : Mem) (tmpbuf v : ℕ)
    → (m' : Mem) × (convert m tmpbuf b'c' v ≡ some m')
      × Converted m tmpbuf (if v % 256 == 0 then [] else v % 256 ∷ []) m'
unfolding convert
character_text m tmpbuf v = (
  poke (poke m tmpbuf (v % 256)) (tmpbuf + 1) 0,
  refl,
  elim (Bool-cases (v % 256 == 0)) [
    | inl e ↦ rw e (ground arith, omega arith, λ a out. ground arith)
    | inr e ↦ rw e ((ground arith, ground arith, ground arith), omega arith, λ a out. ground arith)
  ],
)

byte_of_int : (v : ℕ) → v % 2 ^ 32 % 256 ≡ v % 256
byte_of_int v = omega arith

-- `convert` leaves in `tmpbuf` the text of a numeric argument
pub convert-text_of :
    (m : Mem) (tmpbuf v : ℕ) (long : Bool) (k : Conversion)
    → v < 2 ^ 64
    → (m' : Mem) × (convert m tmpbuf (letter_of k) (numeric (letter_of k) (longs long) v) ≡ some m')
      × Converted m tmpbuf (text_of long k v) m'
unfolding numeric
convert-text_of m tmpbuf v true signed lt = signed_text m tmpbuf v lt
convert-text_of m tmpbuf v false signed lt =
    signed_text m tmpbuf (extend (v % 2 ^ 32)) (ground arith)
convert-text_of m tmpbuf v true unsigned lt = unsigned_text m tmpbuf v lt
convert-text_of m tmpbuf v false unsigned lt = unsigned_text m tmpbuf (v % 2 ^ 32) (omega arith)
convert-text_of m tmpbuf v true hexadecimal lt = hex_text m tmpbuf v lt
convert-text_of m tmpbuf v false hexadecimal lt = hex_text m tmpbuf (v % 2 ^ 32) (omega arith)
convert-text_of m tmpbuf v true character lt = character_text m tmpbuf v
convert-text_of m tmpbuf v false character lt =
    let (m', e, there) = character_text m tmpbuf (v % 2 ^ 32) in
    (
      m',
      e,
      subst (λ b. Converted m tmpbuf (if b == 0 then [] else b ∷ []) m') (byte_of_int v) there,
    )

pub string_given :
    {K : Type 0} (at : Places) (d : Printer K) (a : ℕ) (args : List ℕ)
    → a ≢ 0
    → d.args ≡ a ∷ args
    → directive at b's' d.lpref d.world.mem d.world.errno d.args ≡ some (emit d.world.mem a args)
unfolding directive
string_given at d a args nz g = rw g (rw (ne→== a 0 nz) refl)

pub number_given :
    {K : Type 0} (at : Places) (d : Printer K) (m : Mem) (v : ℕ) (args : List ℕ) (long : Bool)
    (k : Conversion)
    → d.lpref ≡ longs long
    → d.args ≡ v ∷ args
    → convert d.world.mem at.tmpbuf (letter_of k) (numeric (letter_of k) (longs long) v) ≡ some m
    → directive at (letter_of k) d.lpref d.world.mem d.world.errno d.args
      ≡ some (emit m at.tmpbuf args)
unfolding directive numeric_directive
number_given at d m v args long signed l g e = rw l (rw g (rw e refl))
number_given at d m v args long unsigned l g e = rw l (rw g (rw e refl))
number_given at d m v args long hexadecimal l g e =
    rw l (rw g (ap (λ o. o >>= (λ x. some (emit x at.tmpbuf args))) e))
number_given at d m v args long character l g e =
    rw l (rw g (ap (λ o. o >>= (λ x. some (emit x at.tmpbuf args))) e))

pub letter_lem :
    (k : Conversion)
    → ((leb b'0' (letter_of k) && leb (letter_of k) b'9') ≡ false) × (letter_of k ≢ 0)
letter_lem signed = (refl, omega arith)
letter_lem unsigned = (refl, omega arith)
letter_lem hexadecimal = (refl, omega arith)
letter_lem character = (refl, omega arith)
