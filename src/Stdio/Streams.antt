-- ===== src/Stdio/Streams.antt =====
-- Streams of stdio.h. A `FILE *` is the 64-bit pattern of `~fd`, or NULL; an `int` is its 32-bit
-- pattern. `cell` is the address of the local character of `fgetc` and `fputc`. A loop takes fuel; `none`
-- means that it ran out.
pub mod Laws
use Prim.Native.Nat.{bit_and, bit_or}
use nolibc.Prelude.{
  ℕ, zero, suc, ◌+◌, ◌-◌, ◌%◌, ◌^◌, Bool, ◌||◌, Option, none, some, ◌==◌, if◌then◌else◌, ◌>>=◌,
}
use nolibc.Prelude.Words.{is_neg32, is_neg64, extend, le_s32}
use nolibc.Errno.{ebadf, einval}
use nolibc.Mem.{poke}
use nolibc.Str.Scan.{strlen}
use nolibc.Sys.World.{World, Kernel, Numbers, Cmd}
use nolibc.Sys.Fds.{close, read, write}
use nolibc.Sys.Open.{open_file}

abbrev pub eof : ℕ
eof = 2 ^ 32 - 1

-- `(FILE *)(intptr_t)~fd`
unfoldable pub stream_of : ℕ → ℕ
stream_of fd = extend (2 ^ 32 - 1 - fd)

abbrev pub stdout : ℕ
unfolding stream_of
stdout = stream_of 1

-- the kernel's flags of `open`
pub record OpenFlags : Type 0 where
  pub o_rdonly : ℕ
  pub o_wronly : ℕ
  pub o_rdwr : ℕ
  pub o_creat : ℕ
  pub o_trunc : ℕ
  pub o_append : ℕ

-- the flags that the first character of `mode` stands for
unfoldable pub open_flags : OpenFlags → ℕ → Option ℕ
open_flags o c =
    if c == b'r'
    then some o.o_rdonly
    else if c == b'w'
    then some (bit_or (bit_or o.o_wronly o.o_creat) o.o_trunc)
    else if c == b'a'
    then some (bit_or (bit_or o.o_wronly o.o_creat) o.o_append)
    else none

-- `flags & ~mask`, on `int`
unfoldable pub without : ℕ → ℕ → ℕ
without flags mask = bit_and flags (2 ^ 32 - 1 - mask)

unfoldable pub setvbuf : ℕ → ℕ
setvbuf mode = if mode == 0 || mode == 1 || mode == 2 then 0 else eof

-- `ret <= 0` on the `ssize_t` that `read` or `write` returns
abbrev pub nothing_done : ℕ → Bool
nothing_done ret = is_neg64 ret || ret == 0

module _ {K : Type 0} (nr : Numbers) (call : Kernel K) where
  unfoldable pub fdopen : ℕ → Cmd K
  fdopen fd w = if is_neg32 fd then (record w { errno = ebadf }, 0) else (w, stream_of fd)

  unfoldable pub fopen : OpenFlags → ℕ → ℕ → Cmd K
  fopen o pathname mode w = elim (open_flags o (w.mem mode)) [
    | none ↦ (record w { errno = einval }, 0)
    | some base ↦
        let flags =
          if w.mem (mode + 1) == b'+'
          then bit_or (without base (bit_or o.o_rdonly o.o_wronly)) o.o_rdwr
          else base in
        let (w', fd) = open_file nr call o.o_creat pathname flags 0o666 w in fdopen fd w'
  ]

  unfoldable pub fileno : ℕ → Cmd K
  fileno stream w =
      if is_neg64 stream
      then (w, (2 ^ 64 - 1 - stream) % 2 ^ 32)
      else (record w { errno = ebadf }, 2 ^ 32 - 1)

  unfoldable pub fflush : ℕ → Cmd K
  fflush stream w =
      if is_neg64 stream || stream == 0 then (w, 0) else (record w { errno = ebadf }, 2 ^ 32 - 1)

  unfoldable pub fclose : ℕ → Cmd K
  fclose stream w =
      let (w', ret) = close nr call ((2 ^ 64 - 1 - stream) % 2 ^ 32) w in
      if is_neg64 stream
      then (w', if ret == 0 then 0 else eof)
      else (record w { errno = ebadf }, 2 ^ 32 - 1)

  unfoldable pub fgetc : ℕ → ℕ → Cmd K
  fgetc cell stream w =
      let (w', fd) = fileno stream w in
      let (w'', ret) = read nr call fd cell 1 w' in
      (w'', if nothing_done ret then eof else w''.mem cell)

  unfoldable pub getchar : ℕ → Cmd K
  getchar cell = fgetc cell (stream_of 0)

  unfoldable pub fputc : ℕ → ℕ → ℕ → Cmd K
  fputc cell c stream w =
      let ch = c % 256 in
      let (w', fd) = fileno stream (record w { mem = poke w.mem cell ch }) in
      let (w'', ret) = write nr call fd cell 1 w' in (w'', if nothing_done ret then eof else ch)

  unfoldable pub putchar : ℕ → ℕ → Cmd K
  putchar cell c = fputc cell c stdout

  -- `while (size)` of `_fwrite`: what is left after a short write is tried again
  unfoldable pub write_loop : ℕ → ℕ → ℕ → ℕ → World K → Option (World K × ℕ)
  write_loop zero fd buf size w = none
  write_loop (suc fuel) fd buf size w =
      let (w', ret) = write nr call fd buf size w in
      let rest = write_loop fuel fd ((buf + ret) % 2 ^ 64) ((size + (2 ^ 64 - ret)) % 2 ^ 64) w' in
      if size == 0 then some (w, 0) else if nothing_done ret then some (w', eof) else rest

  unfoldable pub fwrite_all : ℕ → ℕ → ℕ → ℕ → World K → Option (World K × ℕ)
  unfolding write_loop
  fwrite_all fuel buf size stream w =
      let (w', fd) = fileno stream w in write_loop fuel fd buf size w'

  -- `for (written = 0; written < nmemb; written++)`, with `n` rounds left
  pub fwrite_loop : ℕ → ℕ → ℕ → ℕ → ℕ → ℕ → World K → Option (World K × ℕ)
  fwrite_loop fuel zero s size stream written w = some (w, written)
  fwrite_loop fuel (suc n) s size stream written w = do
    (w', ret) ← fwrite_all fuel s size stream w
    let rest = fwrite_loop fuel n ((s + size) % 2 ^ 64) size stream (written + 1) w' in
        if ret == 0 then rest else some (w', written)

  unfoldable pub fwrite : ℕ → ℕ → ℕ → ℕ → ℕ → World K → Option (World K × ℕ)
  unfolding fwrite_loop
  fwrite fuel s size nmemb stream w = fwrite_loop fuel nmemb s size stream 0 w

  unfoldable pub fputs : ℕ → ℕ → ℕ → World K → Option (World K × ℕ)
  fputs fuel s stream w = do len ← strlen fuel w.mem s; fwrite_all fuel s len stream w

  unfoldable pub puts : ℕ → ℕ → ℕ → World K → Option (World K × ℕ)
  puts fuel cell s w = do
    (w', ret) ← fputs fuel s stdout w
    some (if ret == eof then (w', eof) else putchar cell 10 w')

  -- `for (ofs = 0; ofs + 1 < size;)`, with `n` bytes of room left for characters: the world, `ofs`
  pub fgets_loop : ℕ → ℕ → ℕ → ℕ → ℕ → World K → World K × ℕ
  fgets_loop cell zero s stream ofs w = (w, ofs)
  fgets_loop cell (suc n) s stream ofs w =
      let (w', c) = fgetc cell stream w in
      let stored = record w' { mem = poke w'.mem (s + ofs) (c % 256) } in
      let rest = fgets_loop cell n s stream (ofs + 1) stored in
      if c == eof then (w', ofs) else if c == 10 then (stored, ofs + 1) else rest

  -- `size` is an `int`: with a size that is not positive no byte is read or written
  unfoldable pub fgets : ℕ → ℕ → ℕ → ℕ → Cmd K
  unfolding fgets_loop
  fgets cell s size stream w =
      let room = if le_s32 size 0 then 0 else size - 1 in
      let (w', ofs) = fgets_loop cell room s stream 0 w in
      let ended = if le_s32 size 0 then w' else record w' { mem = poke w'.mem (s + ofs) 0 } in
      (ended, if ofs == 0 then 0 else s)
