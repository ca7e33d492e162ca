-- ===== src/Stdlib/Buffer.antt =====
-- The conversions of stdlib.h that write to the static `itoa_buffer` and return it, `abs` and its kin,
-- and `getenv`. The address of the buffer and the pointer `environ` are parameters: the linker and the
-- start-up code place them.
use nolibc.Prelude.{
  ℕ, zero, suc, ◌+◌, ◌*◌, not, ◌&&◌, Option, none, some, ◌==◌, if◌then◌else◌, ◌>>=◌,
}
use nolibc.Prelude.Words.{neg32, neg64, is_neg32, is_neg64}
use nolibc.Mem.{Mem}
use nolibc.Mem.Words.{load64}
use nolibc.Stdlib.Decimal.{u64toa_r, utoa_r, i64toa_r, itoa_r}
use nolibc.Stdlib.Hex.{utoh_r, u64toh_r}

unfoldable pub abs : ℕ → ℕ
abs j = if is_neg32 j then neg32 j else j

unfoldable pub labs : ℕ → ℕ
labs j = if is_neg64 j then neg64 j else j

unfoldable pub llabs : ℕ → ℕ
llabs j = if is_neg64 j then neg64 j else j

module _ (itoa_buffer : ℕ) where
  unfoldable pub utoh : Mem → ℕ → Mem × ℕ
  utoh m n = let (m', _) = utoh_r m n itoa_buffer in (m', itoa_buffer)

  unfoldable pub itoa : Mem → ℕ → Option (Mem × ℕ)
  itoa m n = do (m', _) ← itoa_r m n itoa_buffer; some (m', itoa_buffer)

  unfoldable pub ltoa : Mem → ℕ → Option (Mem × ℕ)
  ltoa m n = do (m', _) ← itoa_r m n itoa_buffer; some (m', itoa_buffer)

  unfoldable pub utoa : Mem → ℕ → Option (Mem × ℕ)
  utoa m n = do (m', _) ← utoa_r m n itoa_buffer; some (m', itoa_buffer)

  unfoldable pub u64toh : Mem → ℕ → Mem × ℕ
  u64toh m n = let (m', _) = u64toh_r m n itoa_buffer in (m', itoa_buffer)

  unfoldable pub i64toa : Mem → ℕ → Option (Mem × ℕ)
  i64toa m n = do (m', _) ← i64toa_r m n itoa_buffer; some (m', itoa_buffer)

  unfoldable pub u64toa : Mem → ℕ → Option (Mem × ℕ)
  u64toa m n = do (m', _) ← u64toa_r m n itoa_buffer; some (m', itoa_buffer)

-- the inner loop of `getenv`: where `name` ends, or differs from the entry
name_loop : ℕ → Mem → ℕ → ℕ → ℕ → Option ℕ
name_loop zero m name entry i = none
name_loop (suc fuel) m name entry i =
    let rest = name_loop fuel m name entry (i + 1) in
    if not (m (name + i) == 0) && m (name + i) == m (entry + i) then rest else some i

-- the outer loop, at the entry `idx` of the array
environ_loop : ℕ → Mem → ℕ → ℕ → ℕ → Option ℕ
unfolding name_loop
environ_loop zero m environ name idx = none
environ_loop (suc fuel) m environ name idx =
    let entry = load64 m (environ + 8 * idx) in
    let rest = environ_loop fuel m environ name (idx + 1) in
    if entry == 0 then some 0 else (do
      i ← name_loop fuel m name entry 0
      if m (name + i) == 0 && m (entry + i) == b'=' then some (entry + (i + 1)) else rest)

unfoldable pub getenv : ℕ → Mem → ℕ → ℕ → Option ℕ
unfolding environ_loop
getenv fuel m environ name = if environ == 0 then some 0 else environ_loop fuel m environ name 0
