-- ===== src/Sys/Select/Sleeps.antt =====
-- How long `msleep` sleeps, and what it says is left.
use nolibc.Prelude.{
  ℕ, ◌+◌, ◌-◌, ◌*◌, ◌/◌, ◌%◌, ◌^◌, ◌≤◌, ◌<◌, ◌≡◌, ◌∙◌, inr, refl, true, false, arith, ◌==◌,
  if◌then◌else◌,
}
use nolibc.Prelude.Words.{is_neg32}
use nolibc.Mem.{Mem}
use nolibc.Mem.Words.{load64, store64}
use nolibc.Mem.Words.Laws.{load64-store64, load64-store64-Apart}
use nolibc.Sys.World.{World, Kernel, Numbers}
use nolibc.Sys.Select.{store_pair, sys_select, sleep_for, msleep}

-- a `struct timeval` in microseconds
abbrev pub microseconds : Mem → ℕ → ℕ
microseconds m tv = load64 m tv * 1000000 + load64 m (tv + 8)

pub load64-store_pair :
    (m : Mem) (tv a b : ℕ)
    → a < 2 ^ 64
    → b < 2 ^ 64
    → (load64 (store_pair m tv a b) tv ≡ a) × (load64 (store_pair m tv a b) (tv + 8) ≡ b)
unfolding store_pair
load64-store_pair m tv a b la lb = (
  load64-store64-Apart (store64 m tv a) (tv + 8) tv b (inr (omega arith))
      ∙ load64-store64 m tv a la,
  load64-store64 (store64 m tv a) (tv + 8) b lb,
)

-- microseconds rounded up to milliseconds
rounded_up :
    (sec usec : ℕ)
    → (sec * 1000000 + usec
        ≤ (sec * 1000 + usec / 1000 + (if usec % 1000 == 0 then 0 else 1)) * 1000)
      × ((sec * 1000 + usec / 1000 + (if usec % 1000 == 0 then 0 else 1)) * 1000
          < sec * 1000000 + usec + 1000)
rounded_up sec usec = ground arith

low_bits :
    (v n : ℕ)
    → v < 2 ^ 31
    → n ≤ v * 1000
    → v * 1000 < n + 1000
    → (is_neg32 (v % 2 ^ 32) ≡ false) × (n ≤ v % 2 ^ 32 * 1000) × (v % 2 ^ 32 * 1000 < n + 1000)
low_bits v n lt lo hi = (ground arith, omega arith, omega arith)

left_over :
    (sec usec : ℕ)
    → sec * 1000000 + usec < (2 ^ 31 - 1) * 1000
    → (is_neg32 ((sec * 1000 + usec / 1000 + (if usec % 1000 == 0 then 0 else 1)) % 2 ^ 32) ≡ false)
      × (sec * 1000000 + usec
          ≤ (sec * 1000 + usec / 1000 + (if usec % 1000 == 0 then 0 else 1)) % 2 ^ 32 * 1000)
      × ((sec * 1000 + usec / 1000 + (if usec % 1000 == 0 then 0 else 1)) % 2 ^ 32 * 1000
          < sec * 1000000 + usec + 1000)
left_over sec usec small =
    let (lo, hi) = rounded_up sec usec in
    low_bits (sec * 1000 + usec / 1000 + (if usec % 1000 == 0 then 0 else 1)) (sec * 1000000 + usec)
      (omega (arith, hi, small)) lo hi

module _ {K : Type 0} (nr : Numbers) (call : Kernel K) (arg t tv msecs : ℕ) (w : World K) where
  -- where `msleep` stands when it waits, and what select answers
  abbrev pub asked : World K
  asked = record w { mem = store_pair w.mem tv (msecs / 1000) (msecs % 1000 * 1000) }

  abbrev pub answered : World K × ℕ
  answered = sys_select nr call arg t 0 0 0 0 tv asked

  -- For an argument below 2 ^ 32, and a time left by select of less than 2 ^ 31 - 1 milliseconds:
  -- msleep waits in select with a timeout of exactly its argument, less than a second of it in
  -- microseconds, and leaves the world that select leaves. It returns 0 where select does not
  -- fail; where it does, the result, which is no negative number, is the time that select leaves,
  -- rounded up to milliseconds.
  pub msleep-microseconds :
      msecs < 2 ^ 32
      → microseconds answered.0.mem tv < (2 ^ 31 - 1) * 1000
      → (microseconds asked.mem tv ≡ msecs * 1000)
        × (load64 asked.mem (tv + 8) < 1000000)
        × ((msleep nr call arg t tv msecs w).0 ≡ answered.0)
        × (is_neg32 answered.1 ≡ false → (msleep nr call arg t tv msecs w).1 ≡ 0)
        × (is_neg32 answered.1 ≡ true
            → (is_neg32 (msleep nr call arg t tv msecs w).1 ≡ false)
              × (microseconds answered.0.mem tv ≤ (msleep nr call arg t tv msecs w).1 * 1000)
              × ((msleep nr call arg t tv msecs w).1 * 1000
                  < microseconds answered.0.mem tv + 1000))
  unfolding msleep sleep_for
  msleep-microseconds lt left =
      let (sec, usec) =
        load64-store_pair w.mem tv (msecs / 1000) (msecs % 1000 * 1000) (omega arith)
          (omega arith) in
      (
        omega (arith, sec, usec),
        omega (arith, usec),
        refl,
        λ fine. rw fine refl,
        λ failed.
            rw failed (left_over (load64 answered.0.mem tv) (load64 answered.0.mem (tv + 8)) left),
      )
