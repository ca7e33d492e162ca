-- ===== src/Start/Guard/Nonzero.antt =====
-- The guard of the stack protector is never 0.
use Prim.Native.Nat.{bit_xor}
use nolibc.Prelude.{
  ℕ, ◌^◌, ◌<◌, ◌≡◌, ◌≢◌, sym, ◌∙◌, inl, inr, refl, List, [], ◌∷◌, arith, ◌==◌, Bool-cases, ==→eq,
  ==→ne,
}
use nolibc.Prelude.Bits.{bit_xor-zero, bit_xor_bound}
use nolibc.Mem.{Mem}
use nolibc.Mem.Words.{load64}
use nolibc.Mem.Words.Laws.{Bytewise, load64_bound, load64-store64}
use nolibc.Sys.World.{World, Kernel, Numbers, syscall}
use nolibc.Start.Guard.{stack_chk_init}

-- The kernel stores bytes.
abbrev pub KeepsBytes : {K : Type 0} → Kernel K → Type 0
KeepsBytes {K} call =
    (n : ℕ) (args : List ℕ) (k : K) (m : Mem) → Bytewise m → Bytewise (call n args k m).1

-- `^=` with another value below 2 ^ 64 does not give 0
xor_nonzero :
    (a b : ℕ) → a < 2 ^ 64 → b < 2 ^ 64 → a ≢ b → (bit_xor a b < 2 ^ 64) × (bit_xor a b ≢ 0)
xor_nonzero a b h l ne =
    (omega (arith, bit_xor_bound 64 a b (omega arith) (omega arith)), λ e. ne (bit_xor-zero a b e))

-- For a kernel that stores bytes, and a guard at an address above 0, __stack_chk_init leaves a guard
-- that is not 0, whatever getrandom stores, also where it fails, and leaves errno alone.
pub stack_chk_init-nonzero :
    {K : Type 0} (nr : Numbers) (call : Kernel K) (guard : ℕ) (w : World K)
    → KeepsBytes call
    → Bytewise w.mem
    → 0 < guard
    → guard < 2 ^ 64
    → (load64 (stack_chk_init nr call guard w).mem guard ≢ 0)
      × ((stack_chk_init nr call guard w).errno ≡ w.errno)
unfolding stack_chk_init syscall
stack_chk_init-nonzero nr call guard w keeps bytes some_ l =
    let m = (call nr.getrandom (guard ∷ 8 ∷ 0 ∷ []) w.kernel w.mem).1 in
    let value = load64 m guard in
    let bound =
      load64_bound m guard (keeps nr.getrandom (guard ∷ 8 ∷ 0 ∷ []) w.kernel w.mem bytes) in
    elim (Bool-cases (value == guard)) [
      | inl same ↦ rw same ((λ z. omega (arith, ==→eq value guard same)), refl)
      | inr other ↦
          let (small, some_bits) = xor_nonzero value guard bound l (==→ne value guard other) in
          rw other
            ((λ z. some_bits (sym (load64-store64 m guard (bit_xor value guard) small) ∙ z)), refl)
    ]
