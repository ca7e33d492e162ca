-- ===== src/Str/Copy/Strcpy.antt =====
-- `strcpy`: the string arrives whole, and nothing else changes.
use nolibc.Prelude.{ℕ, zero, suc, ◌+◌, ◌<◌, ◌≡◌, some, List, [], ◌∷◌, ◌++◌, arith, length}
use nolibc.Mem.{Mem, poke, write_all, CStr}
use nolibc.Mem.Laws.{Apart, CStr-frame, CStr-write_all, SameOutside, SameOutside-terminated}
use nolibc.Str.Compare.Laws.{NonZero-CStr}
use nolibc.Str.Copy.{strcpy_loop, strcpy}

strcpy_loop-write_all :
    (fuel : ℕ) (m : Mem) (dst src : ℕ) (s : List ℕ)
    → CStr m src s
    → Apart dst (length s + 1) src (length s + 1)
    → length s < fuel
    → strcpy_loop fuel m dst src ≡ some (write_all m dst (s ++ 0 ∷ []))
unfolding strcpy_loop write_all
strcpy_loop-write_all zero m dst src s h apart lt = absurd (omega arith)
strcpy_loop-write_all (suc fuel) m dst src [] h apart lt = rw h
strcpy_loop-write_all (suc fuel) m dst src (c ∷ s) h apart lt =
    let tail = CStr-frame m (poke m dst c) (src + 1) s h.2 (λ a lo hi. ground arith) in
    rw h.0 (ground (arith, strcpy_loop-write_all fuel (poke m dst c) (dst + 1) (src + 1) s tail))

-- Between areas that do not overlap `strcpy` copies the string with its terminator, writes nothing
-- else and returns `dst`.
pub strcpy-CStr :
    (fuel : ℕ) (m : Mem) (dst src : ℕ) (s : List ℕ)
    → CStr m src s
    → Apart dst (length s + 1) src (length s + 1)
    → length s < fuel
    → (m' : Mem) × (strcpy fuel m dst src ≡ some (m', dst))
      × CStr m' dst s
      × SameOutside dst (length s + 1) m m'
unfolding strcpy
strcpy-CStr fuel m dst src s h apart lt = (
  write_all m dst (s ++ 0 ∷ []),
  rw (strcpy_loop-write_all fuel m dst src s h apart lt),
  CStr-write_all m dst s (NonZero-CStr m src s h),
  SameOutside-terminated m dst s,
)
