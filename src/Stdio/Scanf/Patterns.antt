-- ===== src/Stdio/Scanf/Patterns.antt =====
-- The round of `vsscanf` that reads a number.
use nolibc.Prelude.{
  ℕ, ◌+◌, ◌%◌, ◌^◌, ◌<◌, ◌≡◌, ◌≢◌, ◌∙◌, inl, inr, refl, Bool, true, false, some, List, [], ◌∷◌,
  ◌++◌, arith, length, ltb, ◌==◌, ne→==, if◌then◌else◌, Bool-cases,
}
use nolibc.Prelude.Words.{extend}
use nolibc.Mem.{Mem, CStr}
use nolibc.Mem.Words.Laws.{store32-mod}
use nolibc.Mem.Words.{store32, store64}
use nolibc.Stdlib.Strtox.{Parsed, strtoll, strtoull}
use nolibc.Stdio.Printf.Pieces.{
  Piece, number, Conversion, signed, unsigned, hexadecimal, character, format_of, text_of,
}
use nolibc.Stdio.Scanf.{Scanner, scan_round, pattern_at, modifiers, store_number}
use nolibc.Stdio.Scanf.Numbers.{Stops, strtoll-signed_decimal, strtoull-decimal64}

extend-low : (v : ℕ) → extend (v % 2 ^ 32) % 2 ^ 32 ≡ v % 2 ^ 32
extend-low v = elim (Bool-cases (ltb (v % 2 ^ 32) (2 ^ 31))) [
  | inl e ↦ rw e (omega arith)
  | inr e ↦ rw e (omega arith)
]

extend-word : (v : ℕ) → extend (v % 2 ^ 32) < 2 ^ 64
extend-word v = elim (Bool-cases (ltb (v % 2 ^ 32) (2 ^ 31))) [
  | inl e ↦ rw e (omega arith)
  | inr e ↦ rw e (omega arith)
]

abbrev pub put : Bool → Mem → ℕ → ℕ → Mem
put long m a v = if long then store64 m a v else store32 m a v

-- the conversions that both families know
abbrev pub IsScanned : Conversion → Type 0
IsScanned signed = Unit
IsScanned unsigned = Unit
IsScanned hexadecimal = ⊥
IsScanned character = ⊥

-- the state behind a number that was read
abbrev stored_number : Bool → Scanner → ℕ → ℕ → ℕ → List ℕ → Parsed → Scanner
stored_number long s target n format args parsed = record {
  mem = put long s.mem target n;
  errno = parsed.errno;
  str = parsed.endptr;
  format = format + 1;
  matches = (s.matches + 1) % 2 ^ 32;
  args = args;
}

module _ (fuel : ℕ) (s : Scanner) (target lpref format : ℕ) (args : List ℕ) (parsed : Parsed)
    (here : s.mem s.format ≡ b'%') (modified : modifiers s.mem (s.format + 1) ≡ (lpref, format))
    (given : s.args ≡ target ∷ args) where
  scan_round-signed :
      s.mem format ≡ b'd'
      → strtoll fuel s.mem s.errno s.str 10 ≡ some parsed
      → scan_round fuel s
        ≡ some (
          true,
          stored_number
              (if lpref == 0 then false else true)
              s
              target
              parsed.value
              format
              args
              parsed,
        )
  unfolding scan_round pattern_at store_number
  scan_round-signed letter read = rw here (rw modified (rw letter (rw read (rw given refl))))

  scan_round-unsigned :
      s.mem format ≡ b'u'
      → strtoull fuel s.mem s.errno s.str 10 ≡ some parsed
      → scan_round fuel s
        ≡ some (
          true,
          stored_number
              (if lpref == 0 then false else true)
              s
              target
              parsed.value
              format
              args
              parsed,
        )
  unfolding scan_round pattern_at store_number
  scan_round-unsigned letter read = rw here (rw modified (rw letter (rw read (rw given refl))))

pub modifiers-letter : (m : Mem) (p c : ℕ) → m p ≡ c → c ≢ b'l' → modifiers m p ≡ (0, p)
unfolding modifiers
modifiers-letter m p c e other = rw e (rw (ne→== c b'l' other) refl)

modifiers-long :
    (m : Mem) (p c : ℕ) → m p ≡ b'l' → m (p + 1) ≡ c → c ≢ b'l' → modifiers m p ≡ (1, p + 1)
unfolding modifiers
modifiers-long m p c l e other = rw l (rw e (rw (ne→== c b'l' other) refl))

module _ (fuel : ℕ) (s : Scanner) (v target : ℕ) (args t : List ℕ) (ps : List Piece)
    (lt : v < 2 ^ 64) (given : s.args ≡ target ∷ args) (stop : Stops t) where
  -- one round reads a number and stores it
  pub scan_round-number :
      (long : Bool) (k : Conversion)
      → IsScanned k
      → CStr s.mem s.format (format_of (number [] long k v ∷ ps))
      → CStr s.mem s.str (text_of long k v ++ t)
      → length (text_of long k v) < fuel
      → scan_round fuel s
        ≡ some (
          true,
          record {
            mem = put long s.mem target v;
            errno = s.errno;
            str = s.str + length (text_of long k v);
            format = if long then s.format + 1 + 1 + 1 else s.format + 1 + 1;
            matches = (s.matches + 1) % 2 ^ 32;
            args = args;
          },
        )
  scan_round-number true signed h there text f =
      scan_round-signed fuel s target 1 (s.format + 1 + 1) args _ there.0
        (modifiers-long s.mem (s.format + 1) b'd' there.2.0 there.2.2.0 (omega arith)) given
        there.2.2.0 (strtoll-signed_decimal fuel s.mem s.errno s.str v t lt text stop f)
  scan_round-number false signed h there text f =
      let n = extend (v % 2 ^ 32) in
      scan_round-signed fuel s target 0 (s.format + 1) args _ there.0
        (modifiers-letter s.mem (s.format + 1) b'd' there.2.0 (omega arith)) given there.2.0
        (strtoll-signed_decimal fuel s.mem s.errno s.str n t (extend-word v) text stop f)
      ∙ rw (store32-mod s.mem target n v (extend-low v)) refl
  scan_round-number true unsigned h there text f =
      scan_round-unsigned fuel s target 1 (s.format + 1 + 1) args _ there.0
        (modifiers-long s.mem (s.format + 1) b'u' there.2.0 there.2.2.0 (omega arith)) given
        there.2.2.0 (strtoull-decimal64 fuel s.mem s.errno s.str v t lt text stop f)
  scan_round-number false unsigned h there text f =
      scan_round-unsigned fuel s target 0 (s.format + 1) args _ there.0
        (modifiers-letter s.mem (s.format + 1) b'u' there.2.0 (omega arith)) given there.2.0
        (strtoull-decimal64 fuel s.mem s.errno s.str (v % 2 ^ 32) t (omega arith) text stop f)
      ∙ rw (store32-mod s.mem target (v % 2 ^ 32) v (omega arith)) refl
  scan_round-number long hexadecimal h there text f = absurd h
  scan_round-number long character h there text f = absurd h
