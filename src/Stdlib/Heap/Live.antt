-- ===== src/Stdlib/Heap/Live.antt =====
-- The blocks of the heap while a program runs: the steps that it makes, and what holds between them.
-- `live a` is the size of the block whose header stands at `a`, or 0.
use nolibc.Prelude.{
  ℕ, ◌+◌, ◌-◌, ◌%◌, ◌^◌, ◌≤◌, ◌<◌, ◌≡◌, ◌≢◌, ◌∙◌, ap, sym, inl, inr, refl, Bool, arith, ◌==◌, ne→==,
  ==→eq, ==→ne, Bool-cases, if◌then◌else◌,
}
use mathlib.Core.Path.{subst, subst⁻¹}
use nolibc.Mem.{Mem, poke}
use nolibc.Mem.Laws.{Apart}
use nolibc.Mem.Words.{store64}
use nolibc.Mem.Words.Laws.{load64-store64, store64-outside}
use nolibc.Sys.World.{World, Kernel, Numbers}
use nolibc.Stdlib.Heap.{header_size, block_size, malloc, free}
use nolibc.Stdlib.Heap.Block.{Keeps, Granted, Block, Block-kept, fresh-Apart}
use nolibc.Stdlib.Heap.Mapping.{MapsMemory, failed, granted, malloc_outcome, free-call}

pub record State (K : Type 0) : Type 0 where
  pub world : World K
  pub live : ℕ → ℕ

abbrev pub update : (ℕ → ℕ) → ℕ → ℕ → ℕ → ℕ
update live a n b = if b == a then n else live b

-- from the pointer that the program has to the header, and back
abbrev pub header_of : ℕ → ℕ
header_of ptr = (ptr + (2 ^ 64 - header_size)) % 2 ^ 64

abbrev pub user_of : ℕ → ℕ
user_of a = (a + header_size) % 2 ^ 64

-- the block sizes are a page or more, or 0
pub block_size_page : (len : ℕ) → block_size len ≢ 0 → 4096 ≤ block_size len
unfolding block_size
block_size_page len h = omega arith

pub block_size_whole : (len : ℕ) → block_size len % 4096 ≡ 0
unfolding block_size
block_size_whole len = omega arith

pub block_size_bound : (len : ℕ) → block_size len < 2 ^ 64
unfolding block_size
block_size_bound len = omega arith

module _ {K : Type 0} (nr : Numbers) (call : Kernel K) (prot flags : ℕ)
    (mapped : K → ℕ → Bool) where
  abbrev pub alloc : ℕ → World K → World K × ℕ
  alloc len w = malloc nr call prot flags len w

  -- The program asks for memory, and gets a block or a null pointer; it gives back a block that is
  -- live; it stores a byte in the part of a live block that is its own.
  pub data Step : State K → State K → Type 0 where
    allocate :
        (s : State K) (len : ℕ)
        → (alloc len s.world).1 ≢ 0
        → Step s (record {
          world = (alloc len s.world).0;
          live = update s.live (header_of (alloc len s.world).1) (block_size len);
        })
    refuse :
        (s : State K) (len : ℕ)
        → (alloc len s.world).1 ≡ 0
        → Step s (record s { world = (alloc len s.world).0 })
    release :
        (s : State K) (a : ℕ)
        → s.live a ≢ 0
        → Step s (record {
          world = free nr call prot flags (user_of a) s.world;
          live = update s.live a 0;
        })
    store_byte :
        (s : State K) (a b v : ℕ)
        → s.live a ≢ 0
        → a + header_size ≤ b
        → b < a + s.live a
        → Step s (record s { world = record s.world { mem = poke s.world.mem b v } })

  pub data Reach (s : State K) : State K → Type 0 where
    here : Reach s s
    next : {t u : State K} → Reach s t → Step t u → Reach s u

  pub record Inv (s : State K) : Type 0 where
    pub whole : (a : ℕ) → s.live a ≢ 0 → Block mapped s.world a (s.live a)
    pub disjoint : (a c : ℕ) → a ≢ c → s.live a ≢ 0 → s.live c ≢ 0 → Apart a (s.live a) c (s.live c)

  module _ (mm : MapsMemory nr call prot flags mapped) where
    -- a world that keeps what was mapped keeps the blocks
    Keeps-blocks :
        (s : State K) (w' : World K)
        → Inv s
        → Keeps mapped s.world.kernel s.world.mem w'.kernel w'.mem
        → Inv (record s { world = w' })
    Keeps-blocks s w' inv keeps = record {
      whole = λ a l.
          let k = inv.whole a l in
          Block-kept mapped s.world w' a (s.live a) k (λ b lo hi. (keeps b (k.is_mapped b lo hi)).0)
            (λ b lo hi. (keeps b (k.is_mapped b lo (omega arith))).1);
      disjoint = inv.disjoint;
    }

    module _ (len : ℕ) (s : State K) (k' : K) (m' : Mem) (r : ℕ) (inv : Inv s)
        (keeps : Keeps mapped s.world.kernel s.world.mem k' m')
        (area : Granted mapped s.world.kernel k' (block_size len) r) where
      -- the world with the new block
      abbrev grown : World K
      grown = record s.world { kernel = k'; mem = store64 m' r (block_size len) }

      new-Block : Block mapped grown r (block_size len)
      new-Block = record {
        page = block_size_page len (omega (arith, area.some_bytes));
        at_page = area.at_page;
        whole_pages = block_size_whole len;
        some_place = area.some_place;
        in_space = area.below_errors;
        header = load64-store64 m' r (block_size len) (block_size_bound len);
        is_mapped = area.is_mapped;
      }

      from_area : (a : ℕ) → s.live a ≢ 0 → Apart a (s.live a) r (block_size len)
      from_area a l =
          fresh-Apart mapped s.world k' (block_size len) r a (s.live a) area (inv.whole a l)

      old-Block : (a : ℕ) → s.live a ≢ 0 → Block mapped grown a (s.live a)
      old-Block a l =
          let k = inv.whole a l in
          let apart = from_area a l in
          let page = block_size_page len (omega (arith, area.some_bytes)) in
          Block-kept mapped s.world grown a (s.live a) k
            (λ b lo hi. (keeps b (k.is_mapped b lo hi)).0)
            (λ b lo hi.
              store64-outside m' r (block_size len) b (omega arith)
              ∙ (keeps b (k.is_mapped b lo (omega arith))).1)

      grown-Inv : Inv (record { world = grown; live = update s.live r (block_size len) })
      grown-Inv = record {
        whole = λ a l. elim (Bool-cases (a == r)) [
          | inl here_ ↦
              rw here_ (
                subst (λ x. Block mapped grown x (block_size len)) (sym (==→eq a r here_))
                  new-Block)
          | inr there ↦ rw there (old-Block a (rw there at l))
        ];
        disjoint = λ a c ne la lc. elim (Bool-cases (a == r)) [
          | inl p ↦ elim (Bool-cases (c == r)) [
            | inl q ↦ absurd (omega (arith, ==→eq a r p, ==→eq c r q))
            | inr q ↦
                let old = from_area c (rw q at lc) in rw p (rw q (omega (arith, ==→eq a r p, old)))
          ]
          | inr p ↦ elim (Bool-cases (c == r)) [
            | inl q ↦
                let old = from_area a (rw p at la) in rw p (rw q (omega (arith, ==→eq c r q, old)))
            | inr q ↦ rw p (rw q (inv.disjoint a c ne (rw p at la) (rw q at lc)))
          ]
        ];
      }

    -- a block given back leaves the others
    released-Inv :
        (s : State K) (a : ℕ)
        → Inv s
        → s.live a ≢ 0
        → Inv (record {
          world = free nr call prot flags (user_of a) s.world;
          live = update s.live a 0;
        })
    released-Inv s a inv l =
        let k = inv.whole a l in
        let (mem_eq, kernel_eq) =
          free-call nr call prot flags mapped a (s.live a) s.world k.some_place
            (omega (arith, k.in_space, k.page)) k.header in
        let left =
          λ (c : ℕ) (ne : c ≢ a) (lc : s.live c ≢ 0) (b : ℕ) (lo : c ≤ b) (hi : b < c + s.live c).
            mm.unmaps a (s.live a) s.world.kernel s.world.mem b (inv.whole a l).at_page
              (inv.whole a l).whole_pages (omega (arith, inv.disjoint c a ne lc l))
              ((inv.whole c lc).is_mapped b lo hi) in
        record {
          whole = λ c lc. elim (Bool-cases (c == a)) [
            | inl same ↦ absurd ((rw same at lc) refl)
            | inr other ↦
                let lc' = (rw other at lc) in
                let ne = ==→ne c a other in
                rw other (
                  Block-kept mapped s.world (free nr call prot flags (user_of a) s.world) c
                    (s.live c) (inv.whole c lc')
                    (λ b lo hi. ap (λ q. mapped q b) kernel_eq ∙ (left c ne lc' b lo hi).0)
                    (λ b lo hi.
                      ap (λ q. q b) mem_eq
                      ∙ (left c ne lc' b lo (omega (arith, (inv.whole c lc').page))).1))
          ];
          disjoint = λ c d ne lc ld. elim (Bool-cases (c == a)) [
            | inl same ↦ absurd ((rw same at lc) refl)
            | inr p ↦ elim (Bool-cases (d == a)) [
              | inl same ↦ absurd ((rw same at ld) refl)
              | inr q ↦ rw p (rw q (inv.disjoint c d ne (rw p at lc) (rw q at ld)))
            ]
          ];
        }

    -- a byte stored in a block's own part leaves every header
    stored-Inv :
        (s : State K) (a b v : ℕ)
        → Inv s
        → s.live a ≢ 0
        → a + header_size ≤ b
        → b < a + s.live a
        → Inv (record s { world = record s.world { mem = poke s.world.mem b v } })
    stored-Inv s a b v inv l lo hi = record {
      whole = λ c lc.
          let k = inv.whole c lc in
          Block-kept mapped s.world (record s.world { mem = poke s.world.mem b v }) c (s.live c) k
            k.is_mapped
            (λ x xl xh.
              let differs : b ≢ x = elim (Bool-cases (a == c)) [
                | inl same ↦ (λ e. omega (arith, ==→eq a c same))
                | inr other ↦ (λ e. omega (arith, inv.disjoint a c (==→ne a c other) l lc, k.page))
              ] in
              rw (ne→== b x differs) refl);
      disjoint = inv.disjoint;
    }

    Step-Inv : {s t : State K} → Step s t → Inv s → Inv t
    Step-Inv (allocate s len got) inv =
        elim (malloc_outcome nr call prot flags mapped mm len s.world) [
          | failed w' e keeps ↦ absurd (rw e at got refl)
          | granted k' m' r e keeps area ↦
              subst⁻¹
                (λ o.
                  Inv
                    (record { world = o.0; live = update s.live (header_of o.1) (block_size len) }))
                e
                (let back : header_of ((r + header_size) % 2 ^ 64) ≡ r = omega arith in
                  rw back (grown-Inv len s k' m' r inv keeps area))
        ]
    Step-Inv (refuse s len got) inv =
        elim (malloc_outcome nr call prot flags mapped mm len s.world) [
          | failed w' e keeps ↦
              subst⁻¹ (λ o. Inv (record s { world = o.0 })) e (Keeps-blocks s w' inv keeps)
          | granted k' m' r e keeps area ↦ absurd (let null_ = (rw e at got) in omega arith)
        ]
    Step-Inv (release s a l) inv = released-Inv s a inv l
    Step-Inv (store_byte s a b v l lo hi) inv = stored-Inv s a b v inv l lo hi

    -- For a kernel that maps areas at the beginning of a page, and takes whole pages back, as
    -- mmap(2) and munmap(2) document: whatever a program asks of malloc, gives back to free and
    -- stores in the parts of the blocks that are its own, from a state in which it has no block,
    -- every live block is mapped, made of whole pages within the address space, one at least, and
    -- has its size in its header; and no two live blocks overlap.
    pub Reach-Inv : (s t : State K) → ((a : ℕ) → s.live a ≡ 0) → Reach s t → Inv t
    Reach-Inv s t empty here = record {
      whole = λ a l. absurd (l (empty a));
      disjoint = λ a c ne la lc. absurd (la (empty a));
    }
    Reach-Inv s t empty (next r step) = Step-Inv step (Reach-Inv s _ empty r)
