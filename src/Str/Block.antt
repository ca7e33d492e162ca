-- ===== src/Str/Block.antt =====
-- `memcmp`, `memmove`, `memcpy` and `memset` of string.h. A counted loop recurs on the rounds left;
-- `size_t` arithmetic that may wrap is reduced modulo `2 ^ 64`.
pub mod Laws
pub mod Compare
use nolibc.Prelude.{ℕ, zero, suc, ◌+◌, ◌-◌, ◌*◌, ◌%◌, ◌^◌, ◌==◌, ltb, if◌then◌else◌}
use nolibc.Prelude.Int.{ℤ, pos, sub_ℕ}
use nolibc.Mem.{Mem, poke}

-- `ofs < n` holds for `n` rounds; a round ends the loop at the first difference
memcmp_loop : ℕ → Mem → ℕ → ℕ → ℕ → ℤ
memcmp_loop zero m s1 s2 ofs = pos 0
memcmp_loop (suc n) m s1 s2 ofs =
    let rest = memcmp_loop n m s1 s2 (ofs + 1) in
    if m (s1 + ofs) == m (s2 + ofs) then rest else sub_ℕ (m (s1 + ofs)) (m (s2 + ofs))

unfoldable pub memcmp : Mem → ℕ → ℕ → ℕ → ℤ
unfolding memcmp_loop
memcmp m s1 s2 n = memcmp_loop n m s1 s2 0

memmove_loop : ℕ → Mem → ℕ → ℕ → ℕ → ℕ → Mem
memmove_loop zero m dst src dir k = m
memmove_loop (suc len) m dst src dir k =
    let k' = (k + dir) % 2 ^ 64 in
    memmove_loop len (poke m (dst + k') (m (src + k'))) dst src dir k'

-- `pos` (here `k`) and `dir` are `size_t`: -1 is `2 ^ 64 - 1`
unfoldable pub memmove : Mem → ℕ → ℕ → ℕ → Mem × ℕ
unfolding memmove_loop
memmove m dst src len = (
  if ltb dst src
      then memmove_loop len m dst src 1 (2 ^ 64 - 1)
      else memmove_loop len m dst src (2 ^ 64 - 1) len,
  dst,
)

memcpy_loop : ℕ → Mem → ℕ → ℕ → ℕ → Mem
memcpy_loop zero m dst src k = m
memcpy_loop (suc n) m dst src k = memcpy_loop n (poke m (dst + k) (m (src + k))) dst src (k + 1)

unfoldable pub memcpy : Mem → ℕ → ℕ → ℕ → Mem × ℕ
unfolding memcpy_loop
memcpy m dst src len = (memcpy_loop len m dst src 0, dst)

-- the stored value is `b` reduced to a byte
memset_loop : ℕ → Mem → ℕ → ℕ → Mem
memset_loop zero m p b = m
memset_loop (suc len) m p b = memset_loop len (poke m p (b % 256)) (p + 1) b

unfoldable pub memset : Mem → ℕ → ℕ → ℕ → Mem × ℕ
unfolding memset_loop
memset m dst b len = (memset_loop len m dst b, dst)
