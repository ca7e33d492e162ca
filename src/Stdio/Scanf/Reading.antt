-- ===== src/Stdio/Scanf/Reading.antt =====
-- `vsscanf` on a text that has the form of its format: the pieces of a format of printf, read back.
use nolibc.Prelude.{
  ℕ, zero, suc, ◌+◌, ◌^◌, ◌<◌, ◌≡◌, ◌≢◌, ◌⊎◌, refl, Bool, true, false, some, List, [], ◌∷◌, arith,
  if◌then◌else◌, ne→==, eq→==,
}
use nolibc.Prelude.Words.{char32}
use nolibc.Ctype.{isspace}
use nolibc.Mem.{Mem, CStr}
use nolibc.Mem.Laws.{SameOutside}
use nolibc.Mem.Words.{store32, store64}
use nolibc.Mem.Words.Laws.{store-outside}
use nolibc.Stdlib.Strtox.{skip_spaces}
use nolibc.Stdio.Printf.Pieces.{Piece, literal, percent, number, text, format_of, output_of}
use nolibc.Stdio.Scanf.{Scanner, scan_round, scan_loop, pattern_at}
use nolibc.Stdio.Scanf.Numbers.{Stops}
use nolibc.Stdio.Scanf.Patterns.{IsScanned, put, modifiers-letter}

-- a text that begins with no white space
abbrev pub Solid : List ℕ → Type 0
Solid [] = Unit
Solid (c ∷ t) = isspace (char32 c) ≡ false

-- a format whose text can be read back: numbers of `%d` and `%u` without a width, each in front of no
-- digit, and white space only byte by byte between other bytes
abbrev pub Readable : List Piece → Type 0
Readable [] = Unit
Readable (literal c ∷ ps) =
    (c ≢ b'%')
    × ((isspace (char32 c) ≡ false)
        ⊎ ((isspace (char32 c) ≡ true) × Solid (format_of ps) × Solid (output_of ps)))
    × Readable ps
Readable (percent ∷ ps) = Readable ps
Readable (number [] long k v ∷ ps) = IsScanned k × (v < 2 ^ 64) × Stops (output_of ps) × Readable ps
Readable (number (d ∷ ds) long k v ∷ ps) = ⊥
Readable (text ds a s ∷ ps) = ⊥

-- how many numbers there are, and the memory behind their stores
abbrev pub numbers : List Piece → ℕ
numbers [] = 0
numbers (literal c ∷ ps) = numbers ps
numbers (percent ∷ ps) = numbers ps
numbers (number ds long k v ∷ ps) = 1 + numbers ps
numbers (text ds a s ∷ ps) = numbers ps

abbrev pub stored : Mem → List Piece → List ℕ → Mem
stored m [] targets = m
stored m (literal c ∷ ps) targets = stored m ps targets
stored m (percent ∷ ps) targets = stored m ps targets
stored m (number ds long k v ∷ ps) [] = m
stored m (number ds long k v ∷ ps) (t ∷ targets) = stored (put long m t v) ps targets
stored m (text ds a s ∷ ps) targets = stored m ps targets

-- a place for each number, `C` what it must satisfy
abbrev pub Targets : (ℕ → ℕ → Type 0) → List Piece → List ℕ → Type 0
Targets C [] targets = Unit
Targets C (literal c ∷ ps) targets = Targets C ps targets
Targets C (percent ∷ ps) targets = Targets C ps targets
Targets C (number ds long k v ∷ ps) [] = ⊥
Targets C (number ds long k v ∷ ps) (t ∷ targets) =
    C t (if long then 8 else 4) × Targets C ps targets
Targets C (text ds a s ∷ ps) targets = Targets C ps targets

pub put-outside :
    (long : Bool) (m : Mem) (t v : ℕ) → SameOutside t (if long then 8 else 4) m (put long m t v)
unfolding store64 store32
put-outside true m t v a out = store-outside 8 m t v a out
put-outside false m t v a out = store-outside 4 m t v a out

pub scan_more :
    (fuel : ℕ) (s s' : Scanner)
    → scan_round (suc fuel) s ≡ some (true, s')
    → scan_loop (suc fuel) s ≡ scan_loop fuel s'
unfolding scan_loop
scan_more fuel s s' e = rw e refl

pub scan_round-solid :
    (fuel : ℕ) (s : Scanner) (c : ℕ)
    → s.mem s.format ≡ c
    → s.mem s.str ≡ c
    → c ≢ b'%'
    → c ≢ 0
    → isspace (char32 c) ≡ false
    → scan_round fuel s ≡ some (true, record s { format = s.format + 1; str = s.str + 1 })
unfolding scan_round
scan_round-solid fuel s c h t np nz solid =
    rw h (rw (ne→== c b'%' np) (rw (ne→== c 0 nz) (rw solid (rw t (rw (eq→== c c refl) refl)))))

Solid-next : (m : Mem) (p : ℕ) (t : List ℕ) → CStr m p t → Solid t → isspace (char32 (m p)) ≡ false
unfolding isspace
Solid-next m p [] h solid = rw h refl
Solid-next m p (c ∷ t) h solid = rw h.0 solid

-- one byte of white space is passed over
skip_one :
    (fuel : ℕ) (m : Mem) (p c : ℕ) (t : List ℕ)
    → CStr m p (c ∷ t)
    → isspace (char32 c) ≡ true
    → Solid t
    → 1 < fuel
    → skip_spaces fuel m p ≡ some (p + 1)
unfolding skip_spaces
skip_one zero m p c t h blank solid f = absurd (omega arith)
skip_one (suc zero) m p c t h blank solid f = absurd (omega arith)
skip_one (suc (suc fuel)) m p c t h blank solid f =
    rw h.0 (rw blank (rw (Solid-next m (p + 1) t h.2 solid) refl))

pub scan_round-blank :
    (fuel : ℕ) (s : Scanner) (c : ℕ) (f t : List ℕ)
    → CStr s.mem s.format (c ∷ f)
    → CStr s.mem s.str (c ∷ t)
    → c ≢ b'%'
    → isspace (char32 c) ≡ true
    → Solid f
    → Solid t
    → 1 < fuel
    → scan_round fuel s ≡ some (true, record s { format = s.format + 1; str = s.str + 1 })
unfolding scan_round
scan_round-blank fuel s c f t h there np blank fs ts enough =
    rw (skip_one fuel s.mem s.format c f h blank fs enough) (
      rw (skip_one fuel s.mem s.str c t there blank ts enough)
        (rw h.0 (rw (ne→== c b'%' np) (rw (ne→== c 0 h.1) (rw blank refl)))))

pub scan_round-percent :
    (fuel : ℕ) (s : Scanner) (f t : List ℕ)
    → CStr s.mem s.format (b'%' ∷ b'%' ∷ f)
    → CStr s.mem s.str (b'%' ∷ t)
    → scan_round fuel s ≡ some (true, record s { str = s.str + 1; format = s.format + 1 + 1 })
unfolding scan_round pattern_at
scan_round-percent fuel s f t h there = rw h.0 (
    rw (modifiers-letter s.mem (s.format + 1) b'%' h.2.0 (omega arith))
      (rw h.2.0 (rw there.0 refl)))

pub scan_round-end :
    (fuel : ℕ) (s : Scanner) → s.mem s.format ≡ 0 → scan_round fuel s ≡ some (false, s)
unfolding scan_round
scan_round-end fuel s h = rw h refl
