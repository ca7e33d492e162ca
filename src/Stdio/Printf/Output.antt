-- ===== src/Stdio/Printf/Output.antt =====
-- `vfprintf` and `vdprintf`: the text of a format reaches the descriptor.
use nolibc.Prelude.{
  ℕ, ◌+◌, ◌-◌, ◌^◌, ◌≤◌, ◌<◌, ◌≡◌, ◌∙◌, refl, ap, inl, some, List, ◌++◌, arith, length, ne→==,
}
use nolibc.Mem.{CStr}
use nolibc.Mem.Laws.{SameOutside, Apart}
use nolibc.Mem.Words.Laws.{read_bytes-Bytes}
use nolibc.Sys.World.{World, Kernel, Numbers}
use nolibc.Stdio.Streams.{stream_of}
use nolibc.Stdio.Streams.Laws.{Accepts, fwrite_all-output, fdopen-stream_of, stream_of_nonzero}
use nolibc.Stdio.Printf.{Places}
use nolibc.Stdio.Printf.Family.{fprintf_cb, vfprintf, vdprintf}
use nolibc.Stdio.Printf.Pieces.{Piece, format_of, args_of, output_of, Given, Given-weaken}
use nolibc.Stdio.Printf.Handed.{handed_below}
use nolibc.Stdio.Printf.Sink.{Sink}
use nolibc.Stdio.Printf.Format.{nolibc_printf-handed}

module _ {K : Type 0} (at : Places) (scan fuel : ℕ) (nr : Numbers) (call : Kernel K)
    (output : K → List ℕ) (fd : ℕ) (accepts : Accepts nr call output fd)
    (small_fd : fd < 2 ^ 31) where
  -- the callback of `vfprintf` on the stream of a descriptor takes all that it is handed, and has no
  -- memory of its own
  abbrev descriptor : Sink (fprintf_cb at scan fuel nr call) scan
  unfolding fprintf_cb
  descriptor = record {
    able = λ w state k. state ≡ stream_of fd;
    output = λ w state. output w.kernel;
    lo = 0;
    size = 0;
    takes = λ w state t s k e b own f small fits.
        let (w', run, sm, se, so) =
          fwrite_all-output nr call output fd accepts small_fd scan t (length s) w f small fits in
        (
          w',
          state,
          rw e (rw run refl),
          e,
          so ∙ ap (λ x. output w.kernel ++ x) (read_bytes-Bytes w.mem t s b),
          se,
          λ a out. ap (λ m. m a) sm,
        );
    still = λ w state k m e same. (refl, e);
  }

  module _ (fmt : ℕ) (ps : List Piece) (w : World K) (format : CStr w.mem fmt (format_of ps))
      (given : Given w.mem (Apart at.tmpbuf 21) at.space scan ps)
      (apart : Apart at.tmpbuf 21 fmt (length (format_of ps) + 1)) (low : at.tmpbuf + 21 < 2 ^ 64)
      (high : fmt + length (format_of ps) < 2 ^ 64) (short : length (format_of ps) < 2 ^ 63)
      (enough : length (format_of ps) < fuel) (enough_scan : length (format_of ps) < scan)
      (wide : 21 ≤ scan) (small : length (output_of ps) < 2 ^ 31) where
    vfprintf-output :
        (w' : World K) × (vfprintf at scan fuel nr call (stream_of fd) fmt (args_of ps) w
          ≡ some (w', length (output_of ps)))
        × (output w'.kernel ≡ output w.kernel ++ output_of ps)
        × (w'.errno ≡ w.errno)
        × SameOutside at.tmpbuf 21 w.mem w'.mem
    unfolding vfprintf descriptor
    vfprintf-output =
        let (all_, counts) = handed_below ps (2 ^ 64 - 1) (omega (arith, small)) in
        let (w', state', run, so, se, sm) =
          nolibc_printf-handed (fprintf_cb at scan fuel nr call) at scan descriptor
            (inl (omega arith)) low wide fuel (2 ^ 64 - 1) fmt (stream_of fd) ps w format
            (Given-weaken w.mem (Apart at.tmpbuf 21) (λ a n. Apart at.tmpbuf 21 a n × Apart 0 0 a n)
              at.space scan ps (λ a n h. (h, inl (omega arith))) given)
            (apart, inl (omega arith)) high short enough enough_scan refl
            (omega (arith, counts, small)) in
        (
          w',
          rw run (rw counts refl),
          so ∙ ap (λ x. output w.kernel ++ x) all_,
          se,
          λ a out. sm a out (ground arith),
        )

    -- For a kernel that takes at least one byte of each write, a descriptor that is not negative,
    -- a format of bytes other than a percent sign, `%%`, `%s`, and `%d`, `%u`, `%x` and `%c` with
    -- or without one `l`, where `%s` and the numbers may have a width, its arguments, a text
    -- shorter than 2 ^ 31 bytes, strings, a format and the space for padding that lie clear of
    -- the buffer for numbers, and enough fuel: vdprintf terminates, the output of the descriptor
    -- grows by exactly the text that the format asks for, each piece behind spaces up to its
    -- width, which a number with `l` does not have; its length is returned, errno is kept, and
    -- memory changes in the buffer only. In that text a %c of a zero byte stands for no byte at
    -- all.
    pub vdprintf-output :
        (w' : World K) × (vdprintf at scan fuel nr call fd fmt (args_of ps) w
          ≡ some (w', length (output_of ps)))
        × (output w'.kernel ≡ output w.kernel ++ output_of ps)
        × (w'.errno ≡ w.errno)
        × SameOutside at.tmpbuf 21 w.mem w'.mem
    unfolding vdprintf
    vdprintf-output =
        let (w', run, so, se, sm) = vfprintf-output in
        (
          w',
          rw (fdopen-stream_of nr call w fd small_fd)
              (rw (ne→== (stream_of fd) 0 (stream_of_nonzero fd small_fd)) run),
          so,
          se,
          sm,
        )
