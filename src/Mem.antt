-- ===== src/Mem.antt =====
-- Memory as the C code sees it: a byte at every address. A byte is a number below 256 (an `unsigned
-- char`), an address is a number, and a store replaces one byte.
pub mod Words
pub mod Laws
use nolibc.Prelude.{ℕ, ◌+◌, ◌≡◌, ◌≢◌, List, [], ◌∷◌, ◌==◌, if◌then◌else◌}

abbrev pub Mem : Type 0
Mem = ℕ → ℕ

-- `*(char *)a = v`, with `v` already reduced to a byte
abbrev pub poke : Mem → ℕ → ℕ → Mem
poke m a v b = if a == b then v else m b

-- the bytes `s` stored one after the other from `p` on
unfoldable pub write_all : Mem → ℕ → List ℕ → Mem
write_all m p [] = m
write_all m p (c ∷ s) = write_all (poke m p c) (p + 1) s

-- the bytes `s` stand at `p`
abbrev pub Bytes : Mem → ℕ → List ℕ → Type 0
Bytes m p [] = Unit
Bytes m p (c ∷ s) = (m p ≡ c) × Bytes m (p + 1) s

-- a zero-terminated string: the bytes `s`, none of them zero, stand at `p` with a zero behind them
abbrev pub CStr : Mem → ℕ → List ℕ → Type 0
CStr m p [] = m p ≡ 0
CStr m p (c ∷ s) = (m p ≡ c) × (c ≢ 0) × CStr m (p + 1) s
