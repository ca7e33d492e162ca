-- ===== src/Stdio/Printf/Handed.antt =====
-- What `__nolibc_printf` hands to its callback under a limit, and what it counts. The padding of a width
-- is handed over whatever the limit, as long as anything is.
use nolibc.Prelude.{
  ℕ, zero, suc, ◌+◌, ◌-◌, ◌≤◌, ◌<◌, ◌≡◌, ◌∙◌, refl, sym, ap, false, List, [], ◌∷◌, ◌++◌,
  append_assoc, length-append, arith, ◌==◌, if◌then◌else◌, length, take, ne→==,
}
use nolibc.Mem.Laws.{take_all}
use nolibc.Stdio.Printf.Plain.{within}
use nolibc.Stdio.Printf.Pieces.{Piece, literal, said, width_of, spaces, output_of}

-- a text of some width, with `room` bytes left below the limit
abbrev pub emitted : ℕ → ℕ → List ℕ → List ℕ
emitted room wide s =
    if room == 0 then [] else spaces (wide - within (length s) room) ++ take room s

abbrev pub counted : ℕ → ℕ → List ℕ → ℕ
counted room wide s = if room == 0 then length s else wide - within (length s) room + length s

abbrev pub handed : ℕ → List Piece → List ℕ
handed room [] = []
handed room (p ∷ ps) = emitted room (width_of p) (said p) ++ handed (room - length (said p)) ps

abbrev pub total : ℕ → List Piece → ℕ
total room [] = 0
total room (p ∷ ps) = counted room (width_of p) (said p) + total (room - length (said p)) ps

pub length-spaces : (n : ℕ) → length (spaces n) ≡ n
length-spaces zero = refl
length-spaces (suc n) = omega (arith, length-spaces n)

pub take-nil : (n : ℕ) → take {A = ℕ} n [] ≡ []
take-nil zero = refl
take-nil (suc n) = refl

pub length-take : (n : ℕ) (s : List ℕ) → length (take n s) ≡ within (length s) n
length-take zero s = ground arith
length-take (suc n) [] = ground arith
length-take (suc n) (x ∷ s) = ground (arith, length-take n s)

pub take-append-cut : (n : ℕ) (s t : List ℕ) → take n (s ++ t) ≡ take n s ++ take (n - length s) t
take-append-cut zero [] t = refl
take-append-cut (suc n) [] t = let e : suc n - 0 ≡ suc n = omega arith in rw e refl
take-append-cut zero (x ∷ s) t = let e : 0 - suc (length s) ≡ 0 = omega arith in rw e refl
take-append-cut (suc n) (x ∷ s) t =
    let e : suc n - suc (length s) ≡ n - length s = omega arith in
    rw e (ap (λ r. x ∷ r) (take-append-cut n s t))

-- without a width, the part of the text below the limit is handed over
pub emitted-plain : (room : ℕ) (s : List ℕ) → emitted room 0 s ≡ take room s
emitted-plain zero s = refl
emitted-plain (suc n) s =
    let e : 0 - within (length s) (suc n) ≡ 0 = omega arith in
    rw (ne→== (suc n) 0 (omega arith)) (rw e refl)

pub counted-plain : (room : ℕ) (s : List ℕ) → counted room 0 s ≡ length s
counted-plain zero s = refl
counted-plain (suc n) s =
    let e : 0 - within (length s) (suc n) ≡ 0 = omega arith in
    rw (ne→== (suc n) 0 (omega arith)) (rw e (omega arith))

pub counted-ge : (room wide : ℕ) (s : List ℕ) → length s ≤ counted room wide s
counted-ge room wide s = ground arith

-- a text below the limit is handed over with its padding
pub emitted_below :
    (room wide : ℕ) (s : List ℕ)
    → length s < room
    → (emitted room wide s ≡ spaces (wide - length s) ++ s)
      × (counted room wide s ≡ wide - length s + length s)
emitted_below room wide s lt =
    let some_room : (room == 0) ≡ false = ground arith in
    let whole : within (length s) room ≡ length s = ground arith in
    let all_ : take room s ≡ s = take_all room s (omega arith) in
    (rw some_room (rw whole (rw all_ refl)), rw some_room (rw whole refl))

-- a format whose text lies below the limit
pub handed_below :
    (ps : List Piece) (room : ℕ)
    → length (output_of ps) < room
    → (handed room ps ≡ output_of ps) × (total room ps ≡ length (output_of ps))
handed_below [] room lt = (refl, refl)
handed_below (p ∷ ps) room lt =
    let t = said p in
    let pad = spaces (width_of p - length t) in
    let size = length-append pad (t ++ output_of ps) in
    let size' = length-append t (output_of ps) in
    let n = length-spaces (width_of p - length t) in
    let (e, c) = emitted_below room (width_of p) t (omega (arith, size, size')) in
    let (e', c') = handed_below ps (room - length t) (omega (arith, size, size')) in
    (rw e (rw e' (append_assoc pad t (output_of ps))), rw c (rw c' (omega (arith, size, size', n))))

-- a format without widths
abbrev pub Widthless : List Piece → Type 0
Widthless [] = Unit
Widthless (p ∷ ps) = (width_of p ≡ 0) × Widthless ps

pub handed-Widthless :
    (ps : List Piece) (room : ℕ)
    → Widthless ps
    → (handed room ps ≡ take room (output_of ps)) × (total room ps ≡ length (output_of ps))
handed-Widthless [] zero h = (refl, refl)
handed-Widthless [] (suc n) h = (refl, refl)
handed-Widthless (p ∷ ps) room (z, h) =
    let t = said p in
    let (e, c) = handed-Widthless ps (room - length t) h in
    let none_ : 0 - length t ≡ 0 = omega arith in
    (
      rw z (
          rw none_
            (rw (emitted-plain room t) (rw e (sym (take-append-cut room t (output_of ps)))))),
      rw z (rw none_ (rw (counted-plain room t) (rw c (sym (length-append t (output_of ps)))))),
    )

-- what is left to hand over is the same whether a byte is queued or not
pub handed-literal :
    (room c : ℕ) (s : List ℕ) (ps : List Piece)
    → take room s ++ handed (room - length s) (literal c ∷ ps)
      ≡ take room (s ++ c ∷ []) ++ handed (room - length (s ++ c ∷ [])) ps
handed-literal room c s ps =
    let r : room - length s - 1 ≡ room - length (s ++ c ∷ []) =
      omega (arith, length-append s (c ∷ [])) in
    rw (emitted-plain (room - length s) (c ∷ [])) (
      rw r (
        sym (
          append_assoc (take room s) (take (room - length s) (c ∷ []))
            (handed (room - length (s ++ c ∷ [])) ps))
        ∙ ap (λ t. t ++ handed (room - length (s ++ c ∷ [])) ps)
            (sym (take-append-cut room s (c ∷ [])))))

pub total-literal :
    (room c : ℕ) (s : List ℕ) (ps : List Piece)
    → length s + total (room - length s) (literal c ∷ ps)
      ≡ length (s ++ c ∷ []) + total (room - length (s ++ c ∷ [])) ps
total-literal room c s ps =
    let more = length-append s (c ∷ []) in
    let r : room - length s - 1 ≡ room - length (s ++ c ∷ []) = omega (arith, more) in
    rw (counted-plain (room - length s) (c ∷ [])) (rw r (omega (arith, more)))
