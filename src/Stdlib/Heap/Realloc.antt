-- ===== src/Stdlib/Heap/Realloc.antt =====
-- What `realloc` makes of a block, over a kernel that maps memory as documented.
use native.Mathlib.Decide.{dec_lt}
use nolibc.Prelude.{
  ℕ, ◌+◌, ◌-◌, ◌%◌, ◌^◌, ◌≤◌, ◌<◌, ◌≡◌, ◌∙◌, ◌⊎◌, inl, inr, refl, ap, Bool, true, false, [], ◌∷◌,
  arith, ne→==, lt→leb, le→leb, lt→ltb,
}
use nolibc.Mem.{Mem}
use nolibc.Mem.Laws.{Apart, outside_other}
use nolibc.Mem.Words.{load64, store64}
use nolibc.Mem.Words.Laws.{load64-store64, load64-frame, store64-outside}
use nolibc.Str.Block.{memcpy}
use nolibc.Str.Block.Laws.{copied, memcpy-copied}
use nolibc.Sys.World.{World, Kernel, Numbers}
use nolibc.Sys.Memory.{munmap}
use nolibc.Stdlib.Heap.{header_size, block_size, malloc, move_block, realloc}
use nolibc.Stdlib.Heap.Sizes.{block_size-pages}
use nolibc.Stdlib.Heap.Block.{clash, Keeps, Granted, Block, fresh-Apart}
use nolibc.Stdlib.Heap.Mapping.{MapsMemory, munmap-call, failed, granted, malloc_outcome}
use nolibc.Stdlib.Heap.Live.{block_size_bound, block_size_whole}

copied-inside :
    (m : Mem) (dst src len i : ℕ) → i < len → copied m dst src 0 len (dst + i) ≡ m (src + i)
copied-inside m dst src len i lt =
    let e : dst + i - dst ≡ i = omega arith in
    rw (le→leb (dst + 0) (dst + i) (omega arith))
      (rw (lt→ltb (dst + i) (dst + len) (omega arith)) (rw e refl))

module _ {K : Type 0} (nr : Numbers) (call : Kernel K) (prot flags : ℕ)
    (mapped : K → ℕ → Bool) where
  -- the last call is the one that unmaps the `n` bytes at `a`; where it succeeds, they are no longer mapped
  pub record GivenBack (w' : World K) (a n : ℕ) : Type 0 where
    pub before : K
    pub memory : Mem
    pub unmapped : w'.kernel ≡ (call nr.munmap (a ∷ n ∷ []) before memory).0
    pub gone :
        (call nr.munmap (a ∷ n ∷ []) before memory).2 ≡ 0
        → (b : ℕ) → a ≤ b
        → b < a + n
        → mapped w'.kernel b ≡ false

  -- the block of `n` bytes at `a` serves; there is no memory, and what was mapped stays; or the contents
  -- stand in a new block, and the old one, and only that, is given back
  pub data Realloced (w : World K) (a n size : ℕ) : Type 0 where
    serves :
        header_size + size ≤ n
        → realloc nr call prot flags (a + header_size) size w ≡ (w, a + header_size)
        → Realloced w a n size
    refused :
        (w' : World K)
        → n < header_size + size
        → realloc nr call prot flags (a + header_size) size w ≡ (w', 0)
        → Keeps mapped w.kernel w.mem w'.kernel w'.mem
        → Realloced w a n size
    moved :
        (w' : World K) (r : ℕ)
        → n < header_size + size
        → realloc nr call prot flags (a + header_size) size w ≡ (w', r + header_size)
        → Block mapped w' r (block_size size)
        → ((i : ℕ)
            → i < n - header_size
            → w'.mem (r + header_size + i) ≡ w.mem (a + header_size + i))
        → ((b : ℕ)
            → (b < a) ⊎ (a + n ≤ b)
            → mapped w.kernel b ≡ true
            → (mapped w'.kernel b ≡ true) × (w'.mem b ≡ w.mem b))
        → GivenBack w' a n
        → Realloced w a n size

  module _ (w : World K) (a n size : ℕ) (block : Block mapped w a n) where
    -- the tests of `realloc`
    realloc-move_block :
        n < header_size + size
        → realloc nr call prot flags (a + header_size) size w
          ≡ move_block nr call prot flags a (n - header_size) size w
    unfolding realloc
    realloc-move_block small =
        let back : (a + 16 + (2 ^ 64 - 16)) % 2 ^ 64 ≡ a =
          omega (arith, block.in_space, block.page) in
        let len : (n + (2 ^ 64 - 16)) % 2 ^ 64 ≡ n - 16 =
          omega (arith, block.in_space, block.page) in
        rw back (
          rw block.header (
            rw len (
              rw (ne→== (a + 16) 0 (omega arith))
                (rw (lt→leb size (n - 16) (omega (arith, small, block.page))) refl))))

    realloc_serves :
        header_size + size ≤ n
        → realloc nr call prot flags (a + header_size) size w ≡ (w, a + header_size)
    unfolding realloc
    realloc_serves large =
        let back : (a + 16 + (2 ^ 64 - 16)) % 2 ^ 64 ≡ a =
          omega (arith, block.in_space, block.page) in
        let len : (n + (2 ^ 64 - 16)) % 2 ^ 64 ≡ n - 16 =
          omega (arith, block.in_space, block.page) in
        rw back (
          rw block.header (
            rw len (
              rw (ne→== (a + 16) 0 (omega arith))
                (rw (le→leb size (n - 16) (omega (arith, large))) refl))))

    move_block_refused :
        (w' : World K)
        → malloc nr call prot flags size w ≡ (w', 0)
        → move_block nr call prot flags a (n - header_size) size w ≡ (w', 0)
    unfolding move_block
    move_block_refused w' e = rw e refl

    move_block_granted :
        (w1 : World K) (r : ℕ)
        → malloc nr call prot flags size w ≡ (w1, (r + header_size) % 2 ^ 64)
        → 0 < r
        → r + header_size < 2 ^ 64
        → load64 (memcpy w1.mem (r + header_size) (a + header_size) (n - header_size)).0 a ≡ n
        → move_block nr call prot flags a (n - header_size) size w ≡ (
          (munmap nr call a n (record w1 {
            mem = (memcpy w1.mem (r + header_size) (a + header_size) (n - header_size)).0;
          })).0,
          r + header_size,
        )
    unfolding move_block
    move_block_granted w1 r e some_ below header =
        let place : (a + 16) % 2 ^ 64 ≡ a + 16 = omega (arith, block.in_space, block.page) in
        let there : (r + 16) % 2 ^ 64 ≡ r + 16 = omega (arith, below) in
        rw e (rw place (rw there (rw header (rw (ne→== (r + 16) 0 (omega arith)) refl))))

    module _ (mm : MapsMemory nr call prot flags mapped) (k' : K) (m' : Mem) (r : ℕ)
        (keeps : Keeps mapped w.kernel w.mem k' m')
        (area : Granted mapped w.kernel k' (block_size size) r) (room : n < block_size size) where
      -- memory with the new block, and with the copy
      abbrev m1 : Mem
      m1 = store64 m' r (block_size size)

      abbrev m2 : Mem
      m2 = (memcpy m1 (r + header_size) (a + header_size) (n - header_size)).0

      apart : Apart a n r (block_size size)
      apart = fresh-Apart mapped w k' (block_size size) r a n area block

      -- what was mapped is not touched
      m1-old :
          (b : ℕ) → (b < r) ⊎ (r + block_size size ≤ b) → mapped w.kernel b ≡ true → m1 b ≡ w.mem b
      m1-old b out h =
          store64-outside m' r (block_size size) b (ground (arith, out, room, block.page))
          ∙ (keeps b h).1

      m2-outside : (b : ℕ) → (b < r + header_size) ⊎ (r + block_size size ≤ b) → m2 b ≡ m1 b
      m2-outside b out =
          memcpy-copied m1 (r + 16) (a + 16) (n - 16) b (ground (arith, apart, room))
          ∙ ground (arith, out, room)

      -- what was mapped lies outside the new block
      not_fresh : (b : ℕ) → mapped w.kernel b ≡ true → (b < r) ⊎ (r + block_size size ≤ b)
      not_fresh b h = elim (dec_lt b r) [
        | yes before ↦ inl before
        | no behind ↦ elim (dec_lt b (r + block_size size)) [
          | yes inside ↦ clash h (area.was_free b (omega arith) inside)
          | no outside ↦ inr (omega arith)
        ]
      ]

      header_kept : load64 m2 a ≡ n
      header_kept =
          load64-frame w.mem m2 a (λ b lo hi.
            let out : (b < r) ⊎ (r + block_size size ≤ b) =
              ground (arith, apart, lo, hi, block.page) in
            m2-outside b (ground (arith, out))
            ∙ m1-old b out (block.is_mapped b lo (omega (arith, hi, block.page))))
          ∙ block.header

      copied_byte :
          (i : ℕ) → i < n - header_size → m2 (r + header_size + i) ≡ w.mem (a + header_size + i)
      copied_byte i lt =
          memcpy-copied m1 (r + 16) (a + 16) (n - 16) (r + 16 + i) (ground (arith, apart, room))
          ∙ copied-inside m1 (r + 16) (a + 16) (n - 16) i lt
          ∙ m1-old (a + 16 + i) (ground (arith, apart, lt))
              (block.is_mapped (a + 16 + i) (omega arith) (omega (arith, lt)))

      -- the old block is given back
      abbrev w2 : World K
      w2 = (munmap nr call a n (record w { kernel = k'; mem = m2 })).0

      left_alone :
          (b : ℕ)
          → (b < a) ⊎ (a + n ≤ b)
          → mapped k' b ≡ true
          → (mapped w2.kernel b ≡ true) × (w2.mem b ≡ m2 b)
      left_alone b out h =
          let (mem_eq, kernel_eq) =
            munmap-call nr call prot flags mapped a n (record w { kernel = k'; mem = m2 }) in
          let (still, same) = mm.unmaps a n k' m2 b block.at_page block.whole_pages out h in
          (ap (λ k. mapped k b) kernel_eq ∙ still, ap (λ m. m b) mem_eq ∙ same)

      given_back : GivenBack w2 a n
      given_back =
          let (mem_eq, kernel_eq) =
            munmap-call nr call prot flags mapped a n (record w { kernel = k'; mem = m2 }) in
          record {
            before = k';
            memory = m2;
            unmapped = kernel_eq;
            gone = λ e b lo hi.
                ap (λ k. mapped k b) kernel_eq
                ∙ mm.takes a n k' m2 b block.at_page block.whole_pages e lo hi;
          }

      outside_old : (b : ℕ) → r ≤ b → b < r + block_size size → (b < a) ⊎ (a + n ≤ b)
      outside_old b lo hi = outside_other a n r (block_size size) b apart lo hi

      moved-Block : Block mapped w2 r (block_size size)
      moved-Block = record {
        page = omega (arith, room, block.page);
        at_page = area.at_page;
        whole_pages = block_size_whole size;
        some_place = area.some_place;
        in_space = area.below_errors;
        header =
            load64-frame m1 w2.mem r (λ b lo hi.
              let inside : b < r + block_size size = omega (arith, hi, room, block.page) in
              (left_alone b (outside_old b lo inside) (area.is_mapped b lo inside)).1
              ∙ m2-outside b (inl (omega (arith, hi))))
            ∙ load64-store64 m' r (block_size size) (block_size_bound size);
        is_mapped = λ b lo hi. (left_alone b (outside_old b lo hi) (area.is_mapped b lo hi)).0;
      }

      moved-Realloced :
          n < header_size + size
          → malloc nr call prot flags size w
            ≡ (record w { kernel = k'; mem = m1 }, (r + header_size) % 2 ^ 64)
          → Realloced w a n size
      moved-Realloced small e =
          moved w2 r small
            (realloc-move_block small
              ∙ move_block_granted (record w { kernel = k'; mem = m1 }) r e area.some_place
                  (omega (arith, area.below_errors)) header_kept)
            moved-Block
            (λ i lt.
              let inside : r + header_size + i < r + block_size size = omega (arith, lt, room) in
              (left_alone (r + header_size + i)
                (outside_old (r + header_size + i) (omega arith) inside)
                (area.is_mapped (r + header_size + i) (omega arith) inside)).1
              ∙ copied_byte i lt)
            (λ b out h.
              let fresh = not_fresh b h in
              let (still, same) = left_alone b out (keeps b h).0 in
              (still, same ∙ m2-outside b (ground (arith, fresh)) ∙ m1-old b fresh h))
            given_back

  -- For a kernel that maps areas at the beginning of a page, and takes whole pages back, as
  -- mmap(2) and munmap(2) document, a block of the heap, and a size that leaves room for the
  -- header and the rounding: realloc returns the block itself where the size fits in it; where it
  -- does not, it returns a null pointer and keeps whatever was mapped, or a new block of that
  -- size whose first bytes are those of the old block, and keeps whatever else was mapped. In the
  -- last case it ends with a call of munmap on the whole old block, and no byte of that is mapped
  -- any more where the call succeeds.
  pub realloc-Realloced :
      MapsMemory nr call prot flags mapped
      → (w : World K) (a n size : ℕ) → Block mapped w a n
      → size ≤ 2 ^ 64 - header_size - 4095 - 1
      → Realloced w a n size
  realloc-Realloced mm w a n size block fits = elim (dec_lt n (header_size + size)) [
    | yes small ↦ elim (malloc_outcome nr call prot flags mapped mm size w) [
      | failed w' e keeps ↦
          refused w' small
            (realloc-move_block w a n size block small ∙ move_block_refused w a n size block w' e)
            keeps
      | granted k' m' r e keeps area ↦
          moved-Realloced w a n size block mm k' m' r keeps area
            (omega (arith, small, block_size-pages size fits)) small e
    ]
    | no large ↦ serves (omega arith) (realloc_serves w a n size block (omega arith))
  ]
