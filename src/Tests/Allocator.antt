-- ===== src/Tests/Allocator.antt =====
-- A run of the heap on a kernel that maps whole pages, one area behind the other from address 65536 on,
-- and takes back the whole pages that it is asked to.
use nolibc.Prelude.{
  ℕ, ◌+◌, ◌-◌, ◌*◌, ◌/◌, ◌%◌, ◌^◌, ◌≢◌, ◌≡◌, refl, inl, inr, Bool, false, not, ◌&&◌, [], ◌∷◌, arith,
  ◌==◌, ltb, leb, if◌then◌else◌, Bool-cases, ◌||◌, eq→==,
}
use nolibc.Mem.Words.{store64}
use nolibc.Mem.Words.Laws.{load64-store64}
use nolibc.Sys.World.{World, Kernel, syscall}
use nolibc.Sys.Memory.{mmap, sys_mmap, map_result}
use nolibc.Stdlib.Heap.{block_size, malloc, free}
use nolibc.Stdlib.Heap.Mapping.{MapsMemory}
use nolibc.Stdlib.Heap.Block.{Block}
use nolibc.Stdlib.Heap.Realloc.{Realloced, realloc-Realloced}
use nolibc.Stdlib.Heap.Live.{
  State, Inv, allocate, release, here, next, update, header_of, user_of, Reach-Inv,
}
use nolibc.Stdlib.Heap.Wraps.{OnePage, malloc_wraps}
use nolibc.Tests.Calls.{numbers}

-- the number of pages mapped so far, and which bytes of them are taken back
record Pages : Type 0 where
  count : ℕ
  taken : ℕ → Bool

abbrev up : ℕ → ℕ
up size = (size + 4095) / 4096

abbrev bump : Kernel Pages
bump n (addr ∷ size ∷ prot ∷ rest) k m =
    if size == 0 || ltb (2 ^ 50) (k.count + up size) then (k, m, 2 ^ 64 - 12) else (
      record {
        count = k.count + up size;
        taken = λ b. k.taken b && ltb b (65536 + 4096 * k.count);
      },
      m,
      65536 + 4096 * k.count,
    )
bump n (a ∷ size ∷ []) k m =
    if a % 4096 == 0
    then (record k { taken = λ b. k.taken b || (leb a b && ltb b (a + 4096 * up size)) }, m, 0)
    else (k, m, 2 ^ 64 - 22)
bump n args k m = (k, m, 0)

abbrev bumped : Pages → ℕ → Bool
bumped k b = leb 65536 b && ltb b (65536 + 4096 * k.count) && not (k.taken b)

bump-MapsMemory : MapsMemory numbers bump 3 34 bumped
bump-MapsMemory = record {
  maps = λ size k m. elim (Bool-cases (size == 0 || ltb (2 ^ 50) (k.count + up size))) [
    | inl refused ↦ rw refused ((λ b h. (h, refl)), inl (omega arith))
    | inr fine ↦ rw fine (
      (λ b h. (ground arith, refl)),
      inr (record {
        some_bytes = ground arith;
        at_page = omega arith;
        some_place = omega arith;
        below_errors = ground arith;
        was_free = λ b lo hi. ground arith;
        is_mapped = λ b lo hi. ground arith;
      }),
    )
  ];
  unmaps = λ a n k m b pa pn out h. rw (eq→== (a % 4096) 0 pa) (ground arith, refl);
  takes = λ a n k m b pa pn e lo hi. rw (eq→== (a % 4096) 0 pa) (ground arith);
}

abbrev begun : State Pages
begun = record {
  world = record { mem = λ _. 0; errno = 0; kernel = record { count = 0; taken = λ _. false } };
  live = λ _. 0;
}

-- after malloc(100)
abbrev allocated : State Pages
allocated = record {
  world = (malloc numbers bump 3 34 100 begun.world).0;
  live =
      update begun.live (header_of (malloc numbers bump 3 34 100 begun.world).1) (block_size 100);
}

got_block : (malloc numbers bump 3 34 100 begun.world).1 ≢ 0
unfolding malloc mmap sys_mmap map_result syscall block_size
got_block = omega arith

is_live : allocated.live 65536 ≢ 0
unfolding malloc mmap sys_mmap map_result syscall block_size
is_live = omega arith

-- after it is given back
abbrev released : State Pages
released = record {
  world = free numbers bump 3 34 (user_of 65536) allocated.world;
  live = update allocated.live 65536 0;
}

Reach-Inv_example : Inv numbers bump 3 34 bumped released
Reach-Inv_example =
    Reach-Inv numbers bump 3 34 bumped bump-MapsMemory begun released (λ a. refl)
      (next (next here (allocate begun 100 got_block)) (release allocated 65536 is_live))

malloc_wraps_example :
    (malloc numbers bump 3 34 (2 ^ 64 - 1) begun.world
      ≡ malloc numbers bump 3 34 (4096 - 16) begun.world)
    × OnePage numbers bump 3 34 bumped (2 ^ 64 - 1) begun.world
malloc_wraps_example =
    malloc_wraps numbers bump 3 34 bumped bump-MapsMemory (2 ^ 64 - 1) begun.world (omega arith)
      (omega arith)

-- a block of one page
abbrev holding : World Pages
holding = record {
  mem = store64 (λ _. 0) 65536 4096;
  errno = 0;
  kernel = record { count = 1; taken = λ _. false };
}

holding-Block : Block bumped holding 65536 4096
holding-Block = record {
  page = omega arith;
  at_page = omega arith;
  whole_pages = omega arith;
  some_place = omega arith;
  in_space = omega arith;
  header = load64-store64 (λ _. 0) 65536 4096 (omega arith);
  is_mapped = λ b lo hi. ground arith;
}

realloc-Realloced_example : Realloced numbers bump 3 34 bumped holding 65536 4096 5000
realloc-Realloced_example =
    realloc-Realloced numbers bump 3 34 bumped bump-MapsMemory holding 65536 4096 5000 holding-Block
      (omega arith)
