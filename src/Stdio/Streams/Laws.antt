-- ===== src/Stdio/Streams/Laws.antt =====
-- Laws of the streams of stdio.h: descriptors and `FILE` pointers, and `_fwrite` over a kernel that
-- may write less than it is asked to.
use nolibc.Prelude.{
  ℕ, zero, suc, ◌+◌, ◌-◌, ◌%◌, ◌^◌, ◌≤◌, ◌<◌, ◌≡◌, ◌≢◌, refl, sym, ap, ◌∙◌, List, [], ◌∷◌, ◌++◌,
  append-nil, append_assoc, some, arith,
}
use nolibc.Mem.{Mem}
use nolibc.Mem.Words.{read_bytes, read_bytes-add}
use nolibc.Sys.World.{World, Kernel, Numbers, syscall, sysret64}
use nolibc.Sys.Fds.{write, sys_write}
use nolibc.Stdio.Streams.{stream_of, fdopen, fileno, write_loop, fwrite_all}

-- the pointer for a descriptor, as a number
stream_of_lem : (fd : ℕ) → fd < 2 ^ 31 → stream_of fd ≡ 2 ^ 64 - 1 - fd
unfolding stream_of
stream_of_lem fd h = ground arith

pub stream_of_nonzero : (fd : ℕ) → fd < 2 ^ 31 → stream_of fd ≢ 0
stream_of_nonzero fd h e = omega (arith, stream_of_lem fd h)

module _ {K : Type 0} (nr : Numbers) (call : Kernel K) (w : World K) (fd : ℕ) where
  -- the descriptor of a stream that stands for one
  fileno-stream_of : fd < 2 ^ 31 → fileno nr call (stream_of fd) w ≡ (w, fd)
  unfolding fileno
  fileno-stream_of h = rw (stream_of_lem fd h) (ground arith)

  pub fdopen-stream_of : fd < 2 ^ 31 → fdopen nr call fd w ≡ (w, stream_of fd)
  unfolding fdopen
  fdopen-stream_of h = ground arith

  -- For a descriptor that is not negative, fdopen returns a pointer that is not NULL, fileno gives the
  -- descriptor back, and neither changes anything.
  pub fileno-fdopen :
      fd < 2 ^ 31
      → (stream : ℕ) × (fdopen nr call fd w ≡ (w, stream))
        × (stream ≢ 0)
        × (fileno nr call stream w ≡ (w, fd))
  fileno-fdopen h = (stream_of fd, fdopen-stream_of h, stream_of_nonzero fd h, fileno-stream_of h)

-- What the code relies on from write(2): of `size` bytes at `buf` it takes at least one and at most
-- all, in order, and leaves the memory alone. `output` reads what a descriptor was given so far.
unfoldable pub Accepts : {K : Type 0} → Numbers → Kernel K → (K → List ℕ) → ℕ → Type 0
Accepts {K} nr call output fd =
    (k : K) (m : Mem) (buf size : ℕ)
    → 0 < size
    → size < 2 ^ 63
    → (taken : ℕ) × (k' : K) × (call nr.write (fd ∷ buf ∷ size ∷ []) k m ≡ (k', m, taken))
      × (0 < taken)
      × (taken ≤ size)
      × (output k' ≡ output k ++ read_bytes m buf taken)

module _ {K : Type 0} (nr : Numbers) (call : Kernel K) (output : K → List ℕ) (fd : ℕ) where
  -- what `write` returns where the kernel took some of the bytes
  write_taken :
      (k' : K) (buf size taken : ℕ) (w : World K)
      → call nr.write (fd ∷ buf ∷ size ∷ []) w.kernel w.mem ≡ (k', w.mem, taken)
      → taken < 2 ^ 63
      → write nr call fd buf size w ≡ (record w { kernel = k' }, taken)
  unfolding write syscall sys_write sysret64
  write_taken k' buf size taken w e lt = rw e (ground arith)

  -- a round of the loop after a write that took some of the bytes
  write_round :
      (fuel buf size taken : ℕ) (w w1 : World K)
      → write nr call fd buf size w ≡ (w1, taken)
      → 0 < taken
      → taken ≤ size
      → size < 2 ^ 63
      → buf + size < 2 ^ 64
      → write_loop nr call (suc fuel) fd buf size w
        ≡ write_loop nr call fuel fd (buf + taken) (size - taken) w1
  unfolding write_loop
  write_round fuel buf size taken w w1 e some_ le l b =
      let at_buf : (buf + taken) % 2 ^ 64 ≡ buf + taken = omega arith in
      let left : (size + (2 ^ 64 - taken)) % 2 ^ 64 ≡ size - taken = omega arith in
      rw e (rw at_buf (rw left (ground arith)))

  -- the loop of `_fwrite` hands over all the bytes, whatever the kernel takes at a time
  write_loop-output :
      Accepts nr call output fd
      → (fuel buf size : ℕ) (w : World K) → size < fuel
      → size < 2 ^ 63
      → buf + size < 2 ^ 64
      → (w' : World K) × (write_loop nr call fuel fd buf size w ≡ some (w', 0))
        × (w'.mem ≡ w.mem)
        × (w'.errno ≡ w.errno)
        × (output w'.kernel ≡ output w.kernel ++ read_bytes w.mem buf size)
  unfolding write_loop read_bytes Accepts
  write_loop-output acc zero buf size w f l b = absurd (omega arith)
  write_loop-output acc (suc fuel) buf zero w f l b =
      (w, refl, refl, refl, sym (append-nil (output w.kernel)))
  write_loop-output acc (suc fuel) buf (suc size) w f l b =
      let (taken, k', e, some_, le, out) = acc w.kernel w.mem buf (suc size) (omega arith) l in
      let parts : taken + (suc size - taken) ≡ suc size = omega arith in
      let w1 = record w { kernel = k' } in
      let (w', run, sm, se, so) =
        write_loop-output acc fuel (buf + taken) (suc size - taken) w1 (omega arith) (omega arith)
          (omega arith) in
      (
        w',
        write_round fuel buf (suc size) taken w w1
              (write_taken k' buf (suc size) taken w e (omega arith)) some_ le l b
            ∙ run,
        sm,
        se,
        so
            ∙ ap (λ x. x ++ read_bytes w.mem (buf + taken) (suc size - taken)) out
            ∙ append_assoc (output w.kernel) (read_bytes w.mem buf taken)
                (read_bytes w.mem (buf + taken) (suc size - taken))
            ∙ ap (λ x. output w.kernel ++ x)
                (sym (read_bytes-add w.mem buf taken (suc size - taken))
                  ∙ ap (read_bytes w.mem buf) parts),
      )

  -- For an area that lies in the address space and is smaller than 2 ^ 63 bytes, and a kernel
  -- that takes at least one byte of each write, _fwrite on the stream of a descriptor terminates,
  -- returns 0, leaves memory and errno alone, and the output of the descriptor grows by exactly
  -- the bytes of the area, however the kernel cuts them up.
  pub fwrite_all-output :
      Accepts nr call output fd
      → fd < 2 ^ 31
      → (fuel buf size : ℕ) (w : World K) → size < fuel
      → size < 2 ^ 63
      → buf + size < 2 ^ 64
      → (w' : World K) × (fwrite_all nr call fuel buf size (stream_of fd) w ≡ some (w', 0))
        × (w'.mem ≡ w.mem)
        × (w'.errno ≡ w.errno)
        × (output w'.kernel ≡ output w.kernel ++ read_bytes w.mem buf size)
  unfolding fwrite_all
  fwrite_all-output acc small fuel buf size w f l b =
      rw (fileno-stream_of nr call w fd small) (write_loop-output acc fuel buf size w f l b)
