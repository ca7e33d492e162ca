-- ===== src/Tests/Kernels.antt =====
-- Tests of what stands on system calls, over a kernel that takes at most two bytes of a write.
use nolibc.Prelude.{
  ℕ, ◌*◌, ◌^◌, ◌≤◌, ◌<◌, ◌≡◌, refl, List, [], ◌∷◌, ◌++◌, some, arith, ltb, if◌then◌else◌, codes,
}
use nolibc.Mem.{write_all}
use nolibc.Mem.Words.{read_bytes}
use nolibc.Sys.World.{World, Kernel}
use nolibc.Tests.Calls.{numbers}
use nolibc.Stdlib.Heap.{malloc, calloc}
use nolibc.Errno.{enomem}
use nolibc.Stdlib.Heap.Sizes.{calloc-malloc}
use nolibc.Stdio.Printf.{Places}
use nolibc.Stdio.Streams.{stream_of, fwrite_all}
use nolibc.Stdio.Streams.Laws.{Accepts, fwrite_all-output}

-- it takes two bytes of a write, or one, and keeps them
abbrev pub slow : Kernel (List ℕ)
slow n (fd ∷ buf ∷ size ∷ []) k m =
    let taken = if ltb size 2 then size else 2 in (k ++ read_bytes m buf taken, m, taken)
slow n args k m = (k, m, 0)

pub slow-Accepts : Accepts numbers slow (λ k. k) 1
unfolding Accepts read_bytes
slow-Accepts k m buf size h l = (
  if ltb size 2 then size else 2,
  k ++ read_bytes m buf (if ltb size 2 then size else 2),
  refl,
  ground arith,
  ground arith,
  refl,
)

abbrev start : World (List ℕ)
unfolding write_all
start = record { mem = write_all (λ _. 0) 100 (codes "nolibc"); errno = 7; kernel = codes "> " }

fwrite_all-output_example :
    (w' : World (List ℕ)) × (fwrite_all numbers slow 10 100 6 (stream_of 1) start ≡ some (w', 0))
    × (w'.mem ≡ start.mem)
    × (w'.errno ≡ start.errno)
    × (w'.kernel ≡ codes "> " ++ read_bytes start.mem 100 6)
unfolding start
fwrite_all-output_example =
    fwrite_all-output numbers slow (λ k. k) 1 slow-Accepts (omega arith) 10 100 6 start
      (omega arith) (omega arith) (omega arith)

calloc-malloc_example :
    (2 ^ 64 ≤ 2 ^ 33 * 2 ^ 32
      → calloc numbers slow 3 34 (2 ^ 33) (2 ^ 32) start ≡ (record start { errno = enomem }, 0))
    × (2 ^ 33 * 2 ^ 32 < 2 ^ 64
        → calloc numbers slow 3 34 (2 ^ 33) (2 ^ 32) start
          ≡ malloc numbers slow 3 34 (2 ^ 33 * 2 ^ 32) start)
calloc-malloc_example = calloc-malloc numbers slow 3 34 (2 ^ 33) (2 ^ 32) start

abbrev pub places : Places
places = record { tmpbuf = 200; space = 230; null_text = 240; strerror_buf = 260 }
