-- ===== src/Stdlib/Heap/Block.antt =====
-- A block of the heap: an area that the kernel has mapped, with its size in the first word. `mapped`
-- reads from the state of the kernel which bytes of the address space are mapped.
use native.Mathlib.Decide.{dec_lt}
use nolibc.Prelude.{ℕ, ◌+◌, ◌-◌, ◌%◌, ◌^◌, ◌≤◌, ◌<◌, ◌≡◌, ◌∙◌, inl, inr, Bool, true, false, arith}
use nolibc.Mem.{Mem}
use nolibc.Mem.Laws.{Apart}
use nolibc.Mem.Words.{load64}
use nolibc.Mem.Words.Laws.{load64-frame}
use nolibc.Sys.World.{World}

pub clash : {b : Bool} {A : Type 0} → b ≡ true → b ≡ false → A
clash p q = cc

module _ {K : Type 0} (mapped : K → ℕ → Bool) where
  -- what was mapped stays so, with its contents
  abbrev pub Keeps : K → Mem → K → Mem → Type 0
  Keeps k m k' m' = (b : ℕ) → mapped k b ≡ true → (mapped k' b ≡ true) × (m' b ≡ m b)

  -- an area of fresh bytes that begins with a page, above address 0 and below the error codes
  pub record Granted (k k' : K) (size r : ℕ) : Type 0 where
    pub some_bytes : 0 < size
    pub at_page : r % 4096 ≡ 0
    pub some_place : 0 < r
    pub below_errors : r + size ≤ 2 ^ 64 - 4096
    pub was_free : (b : ℕ) → r ≤ b → b < r + size → mapped k b ≡ false
    pub is_mapped : (b : ℕ) → r ≤ b → b < r + size → mapped k' b ≡ true

  -- a block: whole pages in the address space, mapped, with its size in the header
  pub record Block (w : World K) (a n : ℕ) : Type 0 where
    pub page : 4096 ≤ n
    pub at_page : a % 4096 ≡ 0
    pub whole_pages : n % 4096 ≡ 0
    pub some_place : 0 < a
    pub in_space : a + n ≤ 2 ^ 64 - 4096
    pub header : load64 w.mem a ≡ n
    pub is_mapped : (b : ℕ) → a ≤ b → b < a + n → mapped w.kernel b ≡ true

  -- a block that stays mapped, and whose header is left alone, is a block
  pub Block-kept :
      (w w' : World K) (a n : ℕ)
      → Block w a n
      → ((b : ℕ) → a ≤ b → b < a + n → mapped w'.kernel b ≡ true)
      → ((b : ℕ) → a ≤ b → b < a + 8 → w'.mem b ≡ w.mem b)
      → Block w' a n
  Block-kept w w' a n k still same = record {
    page = k.page;
    at_page = k.at_page;
    whole_pages = k.whole_pages;
    some_place = k.some_place;
    in_space = k.in_space;
    header = load64-frame w.mem w'.mem a same ∙ k.header;
    is_mapped = still;
  }

  -- an area that was free stands apart from a block
  pub fresh-Apart :
      (w : World K) (k' : K) (size r a n : ℕ)
      → Granted w.kernel k' size r
      → Block w a n
      → Apart a n r size
  fresh-Apart w k' size r a n g k = elim (dec_lt a r) [
    | yes before ↦ elim (dec_lt r (a + n)) [
      | yes inside ↦
          clash (k.is_mapped r (omega arith) inside) (g.was_free r (omega arith) (omega arith))
      | no outside ↦ inl (omega arith)
    ]
    | no behind ↦ elim (dec_lt a (r + size)) [
      | yes inside ↦
          clash (k.is_mapped a (omega arith) (omega arith)) (g.was_free a (omega arith) inside)
      | no outside ↦ inr (omega arith)
    ]
  ]
