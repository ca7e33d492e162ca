-- ===== src/Stdio/Printf/Family.antt =====
-- The callbacks of `__nolibc_printf` and the functions that stdio.h builds on it. The arguments are a
-- list, so that those that gather them (`fprintf`) differ from the others (`vfprintf`) in the name only.
use nolibc.Prelude.{
  ℕ, ◌+◌, ◌-◌, ◌%◌, ◌^◌, Option, some, List, ◌==◌, [], ◌∷◌, ltb, not, ◌&&◌, if◌then◌else◌, ◌>>=◌,
}
use nolibc.Prelude.Words.{is_neg32}
use nolibc.Mem.{poke}
use nolibc.Str.Block.{memcpy}
use nolibc.Sys.World.{World, Kernel, Numbers}
use nolibc.Stdio.Streams.{fwrite_all, fdopen, stdout, stream_of}
use nolibc.Stdio.Printf.{Places, Callback, nolibc_printf}

-- `SIZE_MAX`
abbrev pub size_max : ℕ
size_max = 2 ^ 64 - 1

-- `__nolibc_sprintf_cb`: the state is the place in the buffer
unfoldable pub sprintf_cb : {K : Type 0} → Callback K
sprintf_cb state buf size w =
    let (m, _) = memcpy w.mem state buf size in some (record w { mem = m }, state + size, 0)

module _ {K : Type 0} (at : Places) (scan fuel : ℕ) where
  unfoldable pub vsnprintf : ℕ → ℕ → ℕ → List ℕ → World K → Option (World K × ℕ)
  vsnprintf buf size fmt args w = do
    (w', _, ret) ← nolibc_printf sprintf_cb at scan fuel buf size fmt args w
    let last = (if ltb ret size then ret else (size + (2 ^ 64 - 1)) % 2 ^ 64) in
        let ended = record w' { mem = poke w'.mem ((buf + last) % 2 ^ 64) 0 } in
        some (if is_neg32 ret then (w', ret) else (ended, ret))

  unfoldable pub vsprintf : ℕ → ℕ → List ℕ → World K → Option (World K × ℕ)
  vsprintf buf fmt args = vsnprintf buf size_max fmt args

  -- the functions that gather their arguments hand them on as they are
  unfoldable pub snprintf : ℕ → ℕ → ℕ → List ℕ → World K → Option (World K × ℕ)
  snprintf buf size fmt args = vsnprintf buf size fmt args

  unfoldable pub sprintf : ℕ → ℕ → List ℕ → World K → Option (World K × ℕ)
  sprintf buf fmt args = vsprintf buf fmt args

  module _ (nr : Numbers) (call : Kernel K) where
    -- `__nolibc_fprintf_cb`: the state is the stream
    unfoldable pub fprintf_cb : Callback K
    fprintf_cb state buf size w = do
      (w', ret) ← fwrite_all nr call scan buf size state w
      some (w', state, ret)

    unfoldable pub vfprintf : ℕ → ℕ → List ℕ → World K → Option (World K × ℕ)
    vfprintf stream fmt args w = do
      (w', _, ret) ← nolibc_printf fprintf_cb at scan fuel stream size_max fmt args w
      some (w', ret)

    unfoldable pub vprintf : ℕ → List ℕ → World K → Option (World K × ℕ)
    vprintf fmt args = vfprintf stdout fmt args

    unfoldable pub fprintf : ℕ → ℕ → List ℕ → World K → Option (World K × ℕ)
    fprintf stream fmt args = vfprintf stream fmt args

    unfoldable pub printf : ℕ → List ℕ → World K → Option (World K × ℕ)
    printf fmt args = vfprintf stdout fmt args

    unfoldable pub vdprintf : ℕ → ℕ → List ℕ → World K → Option (World K × ℕ)
    vdprintf fd fmt args w =
        let (w', stream) = fdopen nr call fd w in
        if stream == 0 then some (w', 2 ^ 32 - 1) else vfprintf stream fmt args w'

    unfoldable pub dprintf : ℕ → ℕ → List ℕ → World K → Option (World K × ℕ)
    dprintf fd fmt args = vdprintf fd fmt args

    -- `format`, `empty` and `colon` are the addresses of "%s%serrno=%d\n", "" and ": "
    unfoldable pub perror : ℕ → ℕ → ℕ → ℕ → World K → Option (World K × ℕ)
    perror format empty colon msg w =
        let said = not (msg == 0) && not (w.mem msg == 0) in
        fprintf (stream_of 2) format
          ((if said then msg else empty) ∷ (if said then colon else empty) ∷ w.errno ∷ []) w
