-- ===== src/Stdlib/Heap.antt =====
-- `malloc`, `calloc`, `realloc` and `free` of stdlib.h over `mmap` and `munmap`. A block is a mapping
-- whose first word, `heap->len`, holds its size; `user_p` stands 16 bytes behind it. Words are little
-- endian. The constants of the kernel's headers are parameters: `prot` is PROT_READ | PROT_WRITE and
-- `flags` is MAP_ANONYMOUS | MAP_PRIVATE.
pub mod Sizes
pub mod Block
pub mod Mapping
pub mod Live
pub mod Realloc
pub mod Wraps
use nolibc.Prelude.{ℕ, ◌+◌, ◌-◌, ◌*◌, ◌/◌, ◌%◌, ◌^◌, ◌==◌, not, ◌&&◌, leb, if◌then◌else◌}
use nolibc.Errno.{enomem}
use nolibc.Mem.Words.{load64, store64}
use nolibc.Str.Block.{memcpy}
use nolibc.Sys.World.{World, Kernel, Numbers, Cmd}
use nolibc.Sys.Memory.{mmap, munmap, map_failed}

-- `sizeof(struct nolibc_heap)`, which is also the offset of `user_p`
abbrev pub header_size : ℕ
header_size = 16

-- the length that `malloc` maps, `(sizeof(*heap) + len + 4095UL) & -4096UL`
unfoldable pub block_size : ℕ → ℕ
block_size len = ((header_size + len) % 2 ^ 64 + 4095) % 2 ^ 64 / 4096 * 4096

module _ {K : Type 0} (nr : Numbers) (call : Kernel K) (prot flags : ℕ) where
  unfoldable pub malloc : ℕ → Cmd K
  malloc len w =
      let size = block_size len in
      let (w', heap) = mmap nr call 0 size prot flags (2 ^ 32 - 1) 0 w in
      if heap == map_failed
      then (w', 0)
      else (record w' { mem = store64 w'.mem heap size }, (heap + header_size) % 2 ^ 64)

  unfoldable pub free : ℕ → World K → World K
  free ptr w =
      let heap = (ptr + (2 ^ 64 - header_size)) % 2 ^ 64 in
      let (w', _) = munmap nr call heap (load64 w.mem heap) w in if ptr == 0 then w else w'

  unfoldable pub calloc : ℕ → ℕ → Cmd K
  calloc size nmemb w =
      let x = size * nmemb % 2 ^ 64 in
      if not (size == 0) && not (x / size == nmemb)
      then (record w { errno = enomem }, 0)
      else malloc x w

  -- the old block does not serve: a new one, the contents, and the old one given back
  unfoldable pub move_block : ℕ → ℕ → ℕ → Cmd K
  move_block heap user_p_len new_size w =
      let (w', ret) = malloc new_size w in
      let (m, _) = memcpy w'.mem ret ((heap + header_size) % 2 ^ 64) user_p_len in
      let (w'', _) = munmap nr call heap (load64 m heap) (record w' { mem = m }) in
      if ret == 0 then (w', 0) else (w'', ret)

  unfoldable pub realloc : ℕ → ℕ → Cmd K
  realloc old_ptr new_size w =
      let heap = (old_ptr + (2 ^ 64 - header_size)) % 2 ^ 64 in
      let user_p_len = (load64 w.mem heap + (2 ^ 64 - header_size)) % 2 ^ 64 in
      if old_ptr == 0
      then malloc new_size w
      else if leb new_size user_p_len
      then (w, old_ptr)
      else move_block heap user_p_len new_size w
