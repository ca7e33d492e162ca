-- ===== src/Stdio/Printf/Buffer.antt =====
-- `vsnprintf`: what stands in the buffer for a whole format, and what is left alone.
use nolibc.Prelude.{
  ℕ, ◌+◌, ◌-◌, ◌%◌, ◌^◌, ◌≤◌, ◌<◌, ◌≡◌, ◌∙◌, ◌⊎◌, inl, inr, refl, sym, ap, some, List, [], ◌∷◌,
  ◌++◌, arith, ltb, if◌then◌else◌, length, take, Bool-cases, ◌≢◌, suc,
}
use mathlib.Core.Path.{subst}
use nolibc.Mem.{Mem, poke, Bytes, CStr}
use nolibc.Mem.Laws.{SameOutside, Apart, CStr-cut, take-take, take_all, All-take}
use nolibc.Mem.Words.{read_bytes, read_bytes-add}
use nolibc.Mem.Words.Laws.{read_bytes-frame, read_bytes-Bytes, Bytes-read_bytes}
use nolibc.Str.Block.{memcpy}
use nolibc.Str.Block.Laws.{memcpy-copied}
use nolibc.Str.Compare.Laws.{NonZero, NonZero-CStr}
use nolibc.Sys.World.{World}
use nolibc.Stdio.Printf.{Places, nolibc_printf}
use nolibc.Stdio.Printf.Family.{sprintf_cb, vsnprintf}
use nolibc.Stdio.Printf.Plain.{within}
use nolibc.Stdio.Printf.Pieces.{Piece, format_of, args_of, output_of, Given}
use nolibc.Stdio.Printf.Nonzero.{output_of-NonZero}
use nolibc.Stdio.Printf.Handed.{
  handed, total, handed_below, Widthless, handed-Widthless, length-take,
}
use nolibc.Stdio.Printf.Sink.{Sink}
use nolibc.Stdio.Printf.Format.{nolibc_printf-handed}

-- the same bytes at another place
Bytes-moved :
    (m m' : Mem) (dst src : ℕ) (s : List ℕ)
    → Bytes m src s
    → ((i : ℕ) → i < length s → m' (dst + i) ≡ m (src + i))
    → Bytes m' dst s
Bytes-moved m m' dst src [] b same = tt
Bytes-moved m m' dst src (c ∷ s) (e, b) same = (
  ground (arith, same 0),
  Bytes-moved m m' (dst + 1) (src + 1) s b (λ i lt. ground (arith, same (i + 1))),
)

memcpy-Bytes :
    (m : Mem) (dst src : ℕ) (s : List ℕ)
    → Bytes m src s
    → Apart dst (length s) src (length s)
    → Bytes (memcpy m dst src (length s)).0 dst s
memcpy-Bytes m dst src s b apart =
    Bytes-moved m (memcpy m dst src (length s)).0 dst src s b
      (λ i lt. ground (arith, memcpy-copied m dst src (length s) (dst + i)))

-- the callback keeps what it is handed behind what it has
sprintf_cb-keeps :
    {K : Type 0} (buf area : ℕ) (w : World K) (state t : ℕ) (s : List ℕ)
    → buf ≤ state
    → state + length s ≤ buf + area
    → Bytes w.mem t s
    → Apart buf area t (length s)
    → (w' : World K) × (sprintf_cb state t (length s) w ≡ some (w', state + length s, 0))
      × (read_bytes w'.mem buf (state + length s - buf) ≡ read_bytes w.mem buf (state - buf) ++ s)
      × (w'.errno ≡ w.errno)
      × SameOutside buf area w.mem w'.mem
unfolding sprintf_cb
sprintf_cb-keeps buf area w state t s lo hi b own =
    let m = (memcpy w.mem state t (length s)).0 in
    let same : SameOutside state (length s) w.mem m =
      λ a out. ground (arith, memcpy-copied w.mem state t (length s) a) in
    let grown : state + length s - buf ≡ state - buf + length s = omega arith in
    let place : buf + (state - buf) ≡ state = omega arith in
    (
      record w { mem = m },
      refl,
      rw grown (read_bytes-add m buf (state - buf) (length s))
          ∙ ap (λ x. x ++ read_bytes m (buf + (state - buf)) (length s))
              (read_bytes-frame w.mem m buf (state - buf) (λ a l h. same a (ground arith)))
          ∙ ap (λ x. read_bytes w.mem buf (state - buf) ++ x)
              (rw place
                (read_bytes-Bytes m state s (memcpy-Bytes w.mem state t s b (ground arith)))),
      refl,
      λ a out. same a (ground arith),
    )

-- so the `area` bytes at `buf` are its area, and what it was handed stands there
abbrev buffer : {K : Type 0} (scan buf area : ℕ) → Sink {K = K} sprintf_cb scan
buffer scan buf area = record {
  able = λ w state k. (buf ≤ state) × (state + k ≤ buf + area);
  output = λ w state. read_bytes w.mem buf (state - buf);
  lo = buf;
  size = area;
  takes = λ w state t s k e b own f small high.
      let (w', run, so, se, sm) =
        sprintf_cb-keeps buf area w state t s e.0 (omega (arith, e.1)) b own in
      (w', state + length s, run, (omega (arith, e.0), omega (arith, e.1)), so, se, sm);
  still = λ w state k m e same. (
    read_bytes-frame w.mem m buf (state - buf) (λ a l h. same a l (omega (arith, e.0, e.1, h))),
    (e.0, e.1),
  );
}

-- a format without widths, or one whose text lies below the limit
handed_within :
    (ps : List Piece) (size : ℕ)
    → Widthless ps ⊎ (length (output_of ps) < size)
    → (handed size ps ≡ take size (output_of ps)) × (total size ps ≡ length (output_of ps))
handed_within ps size (inl h) = handed-Widthless ps size h
handed_within ps size (inr lt) =
    let (e, c) = handed_below ps size lt in
    (e ∙ sym (take_all size (output_of ps) (omega arith)), c)

-- what stands in front of the terminator
ended_string :
    (m : Mem) (buf last size : ℕ) (out : List ℕ)
    → NonZero out
    → 0 < size
    → Bytes m buf (take size out)
    → last ≡ buf + (if ltb (length out) size then length out else size - 1)
    → CStr (poke m last 0) buf (take (size - 1) out)
ended_string m buf last size out nz some_room b place = elim (Bool-cases (ltb (length out) size)) [
  | inl whole ↦
      let lt : length out < size = ground (arith, whole) in
      let all_ = take_all size out (omega (arith, lt)) in
      let same : take (length out) out ≡ take (size - 1) out =
        take_all (length out) out (omega arith)
        ∙ sym (take_all (size - 1) out (omega (arith, lt))) in
      subst (λ s. CStr (poke m last 0) buf s) same
        (CStr-cut m buf (length out) last out (ground (arith, place, whole))
          (subst (λ s. Bytes m buf s) all_ b) nz (omega arith))
  | inr cut ↦
      let same : suc (size - 1) ≡ size = omega arith in
      let cuts : take (size - 1) (take size out) ≡ take (size - 1) out =
        subst (λ n. take (size - 1) (take n out) ≡ take (size - 1) out) same
          (take-take (size - 1) out) in
      subst (λ s. CStr (poke m last 0) buf s) cuts
        (CStr-cut m buf (size - 1) last (take size out) (ground (arith, place, cut)) b
          (All-take (λ c. c ≢ 0) size out nz) (ground (arith, length-take size out, cut)))
]

-- the bytes that the callback was handed from the start of the buffer on
kept_from_start :
    (m m' : Mem) (buf state : ℕ) (t : List ℕ)
    → read_bytes m' buf (state - buf) ≡ read_bytes m buf (buf - buf) ++ t
    → Bytes m' buf t
unfolding read_bytes
kept_from_start m m' buf state t e =
    let none_ : buf - buf ≡ 0 = omega arith in
    let all_ : read_bytes m' buf (state - buf) ≡ t = e ∙ ap (λ n. read_bytes m buf n ++ t) none_ in
    subst (λ s. Bytes m' buf s) all_ (Bytes-read_bytes m' buf (state - buf))

-- where `vsnprintf` puts the terminator
last_byte :
    (buf n size : ℕ)
    → 0 < size
    → size < 2 ^ 64
    → buf + within (n + 1) size ≤ 2 ^ 64
    → ((buf + (if ltb n size then n else (size + (2 ^ 64 - 1)) % 2 ^ 64)) % 2 ^ 64
        ≡ buf + (if ltb n size then n else size - 1))
      × (buf + (if ltb n size then n else size - 1) < buf + within (n + 1) size)
last_byte buf n size some_room word room = (ground arith, ground arith)

-- a text behind which `vsnprintf` puts the terminator
vsnprintf-ended :
    {K : Type 0} (at : Places) (scan fuel buf size fmt state n last : ℕ) (args : List ℕ)
    (w w' : World K)
    → nolibc_printf sprintf_cb at scan fuel buf size fmt args w ≡ some (w', state, n)
    → n < 2 ^ 31
    → (buf + (if ltb n size then n else (size + (2 ^ 64 - 1)) % 2 ^ 64)) % 2 ^ 64 ≡ last
    → vsnprintf at scan fuel buf size fmt args w ≡ some (record w' { mem = poke w'.mem last 0 }, n)
unfolding vsnprintf
vsnprintf-ended at scan fuel buf size fmt state n last args w w' run small place =
    rw run (rw place (ground (arith, small)))

module _ {K : Type 0} (at : Places) (scan fuel buf size fmt : ℕ) (ps : List Piece)
    (w : World K) where
  -- clear of what `vsnprintf` writes: the buffer for numbers, and its own up to the terminator
  abbrev Clear : ℕ → ℕ → Type 0
  Clear a k = Apart at.tmpbuf 21 a k × Apart buf (within (length (output_of ps) + 1) size) a k

  -- For a format of bytes other than a percent sign, `%%`, `%s`, and `%d`, `%u`, `%x` and `%c`
  -- with or without one `l`, with its arguments and enough fuel, either without widths or with a
  -- text that is shorter than the limit `size`, a text shorter than 2 ^ 31 bytes, a limit of at
  -- least one byte, and a format, strings and the space for padding that lie clear of the buffer
  -- for numbers and of the bytes that vsnprintf writes: it terminates and returns the length of
  -- the whole text; the buffer holds the string of its first size - 1 bytes, errno is kept, and
  -- memory changes only in the buffer for numbers and in the buffer up to the end of that string.
  -- In the text a %c of a zero byte stands for no byte at all.
  pub vsnprintf-output :
      CStr w.mem fmt (format_of ps)
      → Apart at.tmpbuf 21 buf (within (length (output_of ps) + 1) size)
      → at.tmpbuf + 21 < 2 ^ 64
      → Given w.mem Clear at.space scan ps
      → Clear fmt (length (format_of ps) + 1)
      → fmt + length (format_of ps) < 2 ^ 64
      → length (format_of ps) < 2 ^ 63
      → length (format_of ps) < fuel
      → length (format_of ps) < scan
      → 21 ≤ scan
      → length (output_of ps) < 2 ^ 31
      → Widthless ps ⊎ (length (output_of ps) < size)
      → 0 < size
      → size < 2 ^ 64
      → buf + within (length (output_of ps) + 1) size ≤ 2 ^ 64
      → (w' : World K) × (vsnprintf at scan fuel buf size fmt (args_of ps) w
          ≡ some (w', length (output_of ps)))
        × CStr w'.mem buf (take (size - 1) (output_of ps))
        × (w'.errno ≡ w.errno)
        × ((a : ℕ)
            → (a < at.tmpbuf) ⊎ (at.tmpbuf + 21 ≤ a)
            → (a < buf) ⊎ (buf + within (length (output_of ps) + 1) size ≤ a)
            → w'.mem a ≡ w.mem a)
  vsnprintf-output format own low given free high short f enough wide small fits some_room word
        room =
      let out = output_of ps in
      let area = within (length out + 1) size in
      let (cut, counts) = handed_within ps size fits in
      let sizes : length (handed size ps) ≡ within (length out) size =
        ap length cut ∙ length-take size out in
      let (w', state', run, so, se, sm) =
        nolibc_printf-handed sprintf_cb at scan (buffer scan buf area) (ground (arith, own)) low
          wide fuel size fmt buf ps w format given free high short f enough
          (omega arith, ground (arith, sizes)) (omega (arith, counts, small)) in
      let (place, inside) = last_byte buf (length out) size some_room word room in
      let last = buf + (if ltb (length out) size then length out else size - 1) in
      (
        record w' { mem = poke w'.mem last 0 },
        vsnprintf-ended at scan fuel buf size fmt state' (length out) last (args_of ps) w w'
            (run ∙ ap (λ n. some (w', state', n)) counts) small place,
        ended_string w'.mem buf last size out
            (output_of-NonZero w.mem Clear at.space scan ps
              (NonZero-CStr w.mem fmt (format_of ps) format) given)
            some_room
            (subst (λ t. Bytes w'.mem buf t) cut
              (kept_from_start w.mem w'.mem buf state' (handed size ps) so))
            refl,
        se,
        λ a out1 out2. ground (arith, inside, out2, sm a out1 out2),
      )
