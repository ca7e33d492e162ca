-- ===== src/Stdlib/Heap/Sizes.antt =====
-- The sizes that `malloc` maps, and the test for overflow of `calloc`.
use nolibc.Prelude.{
  ℕ, zero, suc, ◌+◌, ◌-◌, ◌*◌, ◌/◌, ◌%◌, ◌^◌, ◌≤◌, ◌<◌, ◌≡◌, ◌≢◌, refl, arith, eq→==, ne→==,
}
use native.Mathlib.Nat.{mul_comm, mul-div_cancel_left, mod-eq_of_lt, div-lt_iff_lt-mul}
use nolibc.Errno.{enomem}
use nolibc.Sys.World.{World, Kernel, Numbers}
use nolibc.Stdlib.Heap.{header_size, block_size, malloc, calloc}

-- A request that leaves room for the header and the rounding gets a multiple of 4096 bytes that holds
-- both, and wastes less than a page.
pub block_size-pages :
    (len : ℕ)
    → len ≤ 2 ^ 64 - header_size - 4095 - 1
    → (block_size len % 4096 ≡ 0)
      × (header_size + len ≤ block_size len)
      × (block_size len < header_size + len + 4096)
unfolding block_size
block_size-pages len h = (omega arith, omega arith, omega arith)

module _ (size nmemb : ℕ) where
  -- the division undoes a product that fits
  undone : size ≢ 0 → size * nmemb < 2 ^ 64 → size * nmemb % 2 ^ 64 / size ≡ nmemb
  undone nz lt = rw (mod-eq_of_lt lt) (mul-div_cancel_left nmemb {n = size} (omega arith))

  -- it does not undo one that wrapped
  lost : size ≢ 0 → 2 ^ 64 ≤ size * nmemb → size * nmemb % 2 ^ 64 / size ≢ nmemb
  lost nz ge e =
      let small : size * nmemb % 2 ^ 64 / size < nmemb =
        ((div-lt_iff_lt-mul {k = size} (omega arith)).1 (omega (arith, ge, mul_comm nmemb size))) in
      omega arith

-- calloc refuses with ENOMEM, and leaves everything else alone, exactly the requests whose product
-- does not fit in 64 bits; it makes any other one to malloc, for the product.
pub calloc-malloc :
    {K : Type 0} (nr : Numbers) (call : Kernel K) (prot flags size nmemb : ℕ) (w : World K)
    → (2 ^ 64 ≤ size * nmemb
        → calloc nr call prot flags size nmemb w ≡ (record w { errno = enomem }, 0))
      × (size * nmemb < 2 ^ 64
          → calloc nr call prot flags size nmemb w ≡ malloc nr call prot flags (size * nmemb) w)
unfolding calloc
calloc-malloc nr call prot flags zero nmemb w =
    ((λ h. absurd (omega arith)), (λ h. rw (mod-eq_of_lt h) refl))
calloc-malloc nr call prot flags (suc size) nmemb w = (
  (λ h.
      rw
        (ne→== (suc size * nmemb % 2 ^ 64 / suc size) nmemb (lost (suc size) nmemb (omega arith) h))
        (ground arith)),
  (λ h.
      rw
        (eq→== (suc size * nmemb % 2 ^ 64 / suc size) nmemb
          (undone (suc size) nmemb (omega arith) h))
        (rw (mod-eq_of_lt h) (ground arith))),
)
