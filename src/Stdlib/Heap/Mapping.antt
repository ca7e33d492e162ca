-- ===== src/Stdlib/Heap/Mapping.antt =====
-- What the heap relies on of mmap(2) and munmap(2), and what `malloc` and `free` make of it. `mapped`
-- reads from the state of the kernel which bytes of the address space are mapped.
use nolibc.Prelude.{
  ℕ, ◌+◌, ◌-◌, ◌%◌, ◌^◌, ◌≤◌, ◌<◌, ◌≡◌, ◌≢◌, ◌⊎◌, inl, inr, refl, Bool, true, false, none, some, [],
  ◌∷◌, arith, Bool-cases, le→leb, lt→leb, ne→==,
}
use nolibc.Mem.{Mem}
use nolibc.Mem.Words.{load64, store64}
use nolibc.Sys.World.{World, Kernel, Numbers, syscall, sysret32}
use nolibc.Prelude.Words.{is_neg32}
use nolibc.Sys.Memory.{sys_mmap, map_result, mmap, sys_munmap, munmap, map_failed}
use nolibc.Stdlib.Heap.Block.{Keeps, Granted}
use nolibc.Stdlib.Heap.{header_size, block_size, malloc, free}

-- the call that `mmap` makes
abbrev pub mmap_number : Numbers → ℕ
mmap_number nr = elim nr.mmap2 [ none ↦ nr.mmap | some n ↦ n ]

module _ {K : Type 0} (nr : Numbers) (call : Kernel K) (prot flags : ℕ)
    (mapped : K → ℕ → Bool) where
  abbrev pub mmap_call : ℕ → K → Mem → K × Mem × ℕ
  mmap_call size k m = call (mmap_number nr) (0 ∷ size ∷ prot ∷ flags ∷ (2 ^ 32 - 1) ∷ 0 ∷ []) k m

  -- a new mapping is one of the error codes or an area; an area of whole pages that is taken away leaves
  -- the rest, and is no longer mapped when the call succeeds
  pub record MapsMemory : Type 0 where
    pub maps :
        (size : ℕ) (k : K) (m : Mem)
        → Keeps mapped k m (mmap_call size k m).0 (mmap_call size k m).1
          × ((2 ^ 64 - 4095 ≤ (mmap_call size k m).2)
              ⊎ Granted mapped k (mmap_call size k m).0 size (mmap_call size k m).2)
    pub unmaps :
        (a n : ℕ) (k : K) (m : Mem) (b : ℕ)
        → a % 4096 ≡ 0
        → n % 4096 ≡ 0
        → (b < a) ⊎ (a + n ≤ b)
        → mapped k b ≡ true
        → (mapped (call nr.munmap (a ∷ n ∷ []) k m).0 b ≡ true)
          × ((call nr.munmap (a ∷ n ∷ []) k m).1 b ≡ m b)
    pub takes :
        (a n : ℕ) (k : K) (m : Mem) (b : ℕ)
        → a % 4096 ≡ 0
        → n % 4096 ≡ 0
        → (call nr.munmap (a ∷ n ∷ []) k m).2 ≡ 0
        → a ≤ b
        → b < a + n
        → mapped (call nr.munmap (a ∷ n ∷ []) k m).0 b ≡ false

  sys_mmap-call :
      (size : ℕ) (w : World K)
      → sys_mmap nr call 0 size prot flags (2 ^ 32 - 1) 0 w
        ≡ syscall call (mmap_number nr) (0 ∷ size ∷ prot ∷ flags ∷ (2 ^ 32 - 1) ∷ 0 ∷ []) w
  unfolding sys_mmap
  sys_mmap-call size w = ground arith

  -- malloc in terms of the call
  module _ (len r : ℕ) (k' : K) (m' : Mem) (w : World K)
      (called : mmap_call (block_size len) w.kernel w.mem ≡ (k', m', r)) where
    mmap-result :
        mmap nr call 0 (block_size len) prot flags (2 ^ 32 - 1) 0 w
        ≡ map_result nr call (record w { kernel = k'; mem = m' }, r)
    unfolding mmap syscall
    mmap-result = rw (sys_mmap-call (block_size len) w) (rw called refl)

    pub malloc_failed :
        2 ^ 64 - 4095 ≤ r
        → malloc nr call prot flags len w
          ≡ (record w { kernel = k'; mem = m'; errno = (2 ^ 64 - r) % 2 ^ 64 % 2 ^ 32 }, 0)
    unfolding malloc map_result
    malloc_failed h = rw (mmap-result) (rw (le→leb (2 ^ 64 - 4095) r h) refl)

    pub malloc_granted :
        r < 2 ^ 64 - 4096
        → malloc nr call prot flags len w ≡ (
          record w { kernel = k'; mem = store64 m' r (block_size len) },
          (r + header_size) % 2 ^ 64,
        )
    unfolding malloc map_result
    malloc_granted l =
        rw (mmap-result)
          (rw (lt→leb (2 ^ 64 - 4095) r (omega arith)) (rw (ne→== r map_failed (omega arith)) refl))

  -- free in terms of the call; only `errno` depends on whether it succeeds
  pub munmap-call :
      (a n : ℕ) (w : World K)
      → ((munmap nr call a n w).0.mem ≡ (call nr.munmap (a ∷ n ∷ []) w.kernel w.mem).1)
        × ((munmap nr call a n w).0.kernel ≡ (call nr.munmap (a ∷ n ∷ []) w.kernel w.mem).0)
  unfolding munmap sys_munmap sysret32 syscall
  munmap-call a n w =
      elim (Bool-cases (is_neg32 ((call nr.munmap (a ∷ n ∷ []) w.kernel w.mem).2 % 2 ^ 32))) [
        | inl error ↦ (rw error refl, rw error refl)
        | inr fine ↦ (rw fine refl, rw fine refl)
      ]

  pub free-call :
      (a n : ℕ) (w : World K)
      → 0 < a
      → a + header_size < 2 ^ 64
      → load64 w.mem a ≡ n
      → ((free nr call prot flags ((a + header_size) % 2 ^ 64) w).mem
          ≡ (call nr.munmap (a ∷ n ∷ []) w.kernel w.mem).1)
        × ((free nr call prot flags ((a + header_size) % 2 ^ 64) w).kernel
            ≡ (call nr.munmap (a ∷ n ∷ []) w.kernel w.mem).0)
  unfolding free
  free-call a n w p l e =
      let some_ : (a + 16) % 2 ^ 64 ≢ 0 = omega arith in
      let back : ((a + 16) % 2 ^ 64 + (2 ^ 64 - 16)) % 2 ^ 64 ≡ a = omega arith in
      rw (ne→== ((a + 16) % 2 ^ 64) 0 some_) (rw back (rw e (munmap-call a n w)))

  -- what malloc does: it fails and keeps what was there, or sets up a fresh area
  pub data Outcome (len : ℕ) (w : World K) : Type 0 where
    failed :
        (w' : World K)
        → malloc nr call prot flags len w ≡ (w', 0)
        → Keeps mapped w.kernel w.mem w'.kernel w'.mem
        → Outcome len w
    granted :
        (k' : K) (m' : Mem) (r : ℕ)
        → malloc nr call prot flags len w ≡ (
          record w { kernel = k'; mem = store64 m' r (block_size len) },
          (r + header_size) % 2 ^ 64,
        )
        → Keeps mapped w.kernel w.mem k' m'
        → Granted mapped w.kernel k' (block_size len) r
        → Outcome len w

  pub malloc_outcome : MapsMemory → (len : ℕ) (w : World K) → Outcome len w
  malloc_outcome mm len w =
      let (k', m', r) = mmap_call (block_size len) w.kernel w.mem in
      let (keeps, answer) = mm.maps (block_size len) w.kernel w.mem in
      elim answer [
        | inl error ↦
            failed (record w { kernel = k'; mem = m'; errno = (2 ^ 64 - r) % 2 ^ 64 % 2 ^ 32 })
              (malloc_failed len r k' m' w refl error) keeps
        | inr area ↦ granted k' m' r (malloc_granted len r k' m' w refl (omega arith)) keeps area
      ]
