-- ===== src/Tests/Sleep.antt =====
-- `msleep` over a kernel that interrupts each call at once.
use nolibc.Prelude.{ℕ, ◌+◌, ◌-◌, ◌*◌, ◌^◌, ◌≤◌, ◌<◌, ◌≡◌, true, false, arith}
use nolibc.Prelude.Words.{is_neg32}
use nolibc.Mem.Words.{load64}
use nolibc.Sys.World.{World, Kernel, syscall}
use nolibc.Sys.Select.{sys_select, msleep}
use nolibc.Sys.Select.Sleeps.{microseconds, asked, answered, load64-store_pair, msleep-microseconds}
use nolibc.Tests.Calls.{numbers}

abbrev interrupted : Kernel ℕ
interrupted n args k m = (k, m, 2 ^ 64 - 4)

abbrev begin : World ℕ
begin = record { mem = λ _. 0; errno = 7; kernel = 0 }

all_left :
    microseconds (answered numbers interrupted 900 950 500 1500 begin).0.mem 500
    < (2 ^ 31 - 1) * 1000
unfolding sys_select syscall
all_left = omega (arith, load64-store_pair (λ _. 0) 500 1 500000 (omega arith) (omega arith))

msleep-microseconds_example :
    (microseconds (asked numbers interrupted 900 950 500 1500 begin).mem 500 ≡ 1500 * 1000)
    × (load64 (asked numbers interrupted 900 950 500 1500 begin).mem (500 + 8) < 1000000)
    × ((msleep numbers interrupted 900 950 500 1500 begin).0
        ≡ (answered numbers interrupted 900 950 500 1500 begin).0)
    × (is_neg32 (answered numbers interrupted 900 950 500 1500 begin).1 ≡ false
        → (msleep numbers interrupted 900 950 500 1500 begin).1 ≡ 0)
    × (is_neg32 (answered numbers interrupted 900 950 500 1500 begin).1 ≡ true
        → (is_neg32 (msleep numbers interrupted 900 950 500 1500 begin).1 ≡ false)
          × (microseconds (answered numbers interrupted 900 950 500 1500 begin).0.mem 500
              ≤ (msleep numbers interrupted 900 950 500 1500 begin).1 * 1000)
          × ((msleep numbers interrupted 900 950 500 1500 begin).1 * 1000
              < microseconds (answered numbers interrupted 900 950 500 1500 begin).0.mem 500
                + 1000))
msleep-microseconds_example =
    msleep-microseconds numbers interrupted 900 950 500 1500 begin (omega arith) all_left
