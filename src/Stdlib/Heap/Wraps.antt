-- ===== src/Stdlib/Heap/Wraps.antt =====
-- What `malloc` does with a size that leaves no room for the header: the sum wraps around.
use nolibc.Prelude.{
  ℕ, ◌+◌, ◌-◌, ◌*◌, ◌/◌, ◌%◌, ◌^◌, ◌<◌, ◌≡◌, ◌≢◌, ◌⊎◌, inl, inr, refl, ap, Bool, arith,
}
use mathlib.Core.Path.{subst⁻¹}
use nolibc.Mem.Words.Laws.{load64-store64}
use nolibc.Sys.World.{World, Kernel, Numbers}
use nolibc.Stdlib.Heap.{header_size, block_size, malloc}
use nolibc.Stdlib.Heap.Block.{Block}
use nolibc.Stdlib.Heap.Mapping.{MapsMemory, failed, granted, malloc_outcome}
use nolibc.Stdlib.Heap.Live.{header_of}

module _ {K : Type 0} (nr : Numbers) (call : Kernel K) (prot flags : ℕ)
    (mapped : K → ℕ → Bool) where
  -- malloc returns a null pointer, or a pointer into a block of 4096 bytes
  abbrev pub OnePage : ℕ → World K → Type 0
  OnePage len w =
      ((malloc nr call prot flags len w).1 ≡ 0)
      ⊎ (((malloc nr call prot flags len w).1 ≢ 0)
          × Block mapped (malloc nr call prot flags len w).0
              (header_of (malloc nr call prot flags len w).1) 4096)

  small_page : (w : World K) → MapsMemory nr call prot flags mapped → OnePage (4096 - header_size) w
  unfolding block_size
  small_page w mm = elim (malloc_outcome nr call prot flags mapped mm (4096 - header_size) w) [
    | failed w' e keeps ↦ inl (ap (λ o. o.1) e)
    | granted k' m' r e keeps area ↦
        let there : (r + 16) % 2 ^ 64 ≢ 0 = omega (arith, area.below_errors) in
        let back : header_of ((r + 16) % 2 ^ 64) ≡ r = omega (arith, area.below_errors) in
        inr (
          subst⁻¹ (λ o. (o.1 ≢ 0) × Block mapped o.0 (header_of o.1) 4096) e
            (
              there,
              rw back (record {
                page = omega arith;
                at_page = area.at_page;
                whole_pages = omega arith;
                some_place = area.some_place;
                in_space = area.below_errors;
                header = load64-store64 m' r 4096 (omega arith);
                is_mapped = area.is_mapped;
              }),
            ))
  ]

  wrapped :
      (len : ℕ) (w : World K)
      → 2 ^ 64 - header_size < len
      → len < 2 ^ 64
      → malloc nr call prot flags len w ≡ malloc nr call prot flags (4096 - header_size) w
  unfolding malloc block_size
  wrapped len w h l =
      let page : ((16 + len) % 2 ^ 64 + 4095) % 2 ^ 64 / 4096 * 4096 ≡ 4096 = omega arith in
      rw page refl

  -- For a kernel that maps areas at the beginning of a page, as mmap(2) documents, a request of
  -- more than 2 ^ 64 - 16 bytes, whose sum with the header wraps around, is to malloc one of 4080
  -- bytes: it returns a null pointer, or one into a block of 4096 bytes, header included.
  pub malloc_wraps :
      MapsMemory nr call prot flags mapped
      → (len : ℕ) (w : World K) → 2 ^ 64 - header_size < len
      → len < 2 ^ 64
      → (malloc nr call prot flags len w ≡ malloc nr call prot flags (4096 - header_size) w)
        × OnePage len w
  malloc_wraps mm len w h l =
      let same = wrapped len w h l in
      (
        same,
        subst⁻¹ (λ o. (o.1 ≡ 0) ⊎ ((o.1 ≢ 0) × Block mapped o.0 (header_of o.1) 4096)) same
            (small_page w mm),
      )
