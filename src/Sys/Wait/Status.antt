-- ===== src/Sys/Wait/Status.antt =====
-- What the macros of types.h read from the status that waitpid makes.
use Prim.Native.Nat.{bit_and}
use nolibc.Prelude.{
  ℕ, ◌+◌, ◌*◌, ◌/◌, ◌%◌, ◌^◌, ◌<◌, ◌≡◌, ◌≢◌, ◌∙◌, refl, ap, Bool, true, false, some, arith, ◌==◌,
  ltb,
}
use nolibc.Prelude.Bits.{bit_and-shifted, bit_or-shifted_right, low_byte, low_seven, ones, high}
use nolibc.Sys.Wait.{WaitAbi, wexitstatus, wifexited, wtermsig, wifsignaled, wait_status}

-- the codes of the kernel differ from each other and from 0
pub record Distinct (abi : WaitAbi) : Type 0 where
  pub exited_code : abi.cld_exited ≢ 0
  pub killed_code : abi.cld_killed ≢ 0
  pub stopped_code : abi.cld_stopped ≢ 0
  pub dumped_code : abi.cld_dumped ≢ 0
  pub killed_exited : abi.cld_killed ≢ abi.cld_exited
  pub dumped_exited : abi.cld_dumped ≢ abi.cld_exited
  pub dumped_killed : abi.cld_dumped ≢ abi.cld_killed
  pub stopped_exited : abi.cld_stopped ≢ abi.cld_exited
  pub stopped_killed : abi.cld_stopped ≢ abi.cld_killed
  pub stopped_dumped : abi.cld_stopped ≢ abi.cld_dumped

-- what a status says
pub record Says (status : ℕ) (exited : Bool) (code : ℕ) (signal : ℕ) (signaled : Bool)
    : Type 0 where
  pub is_exited : wifexited status ≡ exited
  pub exit_code : wexitstatus status ≡ code
  pub term_signal : wtermsig status ≡ signal
  pub is_signaled : wifsignaled status ≡ signaled

-- the second byte
second_byte : (st : ℕ) → bit_and st 0xff00 / 2 ^ 8 ≡ st / 256 % 256
second_byte st =
    ap (λ x. x / 2 ^ 8) (bit_and-shifted 8 st (ones 8)) ∙ omega (arith, low_byte (high 8 st))

-- the macros, as a division and remainders
reads : (st : ℕ) → st < 2 ^ 31 → Says st (st % 128 == 0) (st / 256 % 256) (st % 128) (ltb st 256)
unfolding wifexited wexitstatus wtermsig wifsignaled
reads st h = record {
  is_exited = rw (low_seven st) refl;
  exit_code = second_byte st;
  term_signal = low_seven st;
  is_signaled = ground arith;
}

-- a code gives a status that says these things
abbrev pub Gives : WaitAbi → ℕ → ℕ → Bool → ℕ → ℕ → Bool → Type 0
Gives abi code status exited exit_code signal signaled =
    (st : ℕ) × (wait_status abi code status ≡ some st) × Says st exited exit_code signal signaled

module _ (abi : WaitAbi) (d : Distinct abi) (status : ℕ) where
  -- an exit code, in the second byte
  Gives-exited : Gives abi abi.cld_exited status true (status % 256) 0 (status % 256 == 0)
  unfolding wait_status
  Gives-exited = (
    status % 256 * 256,
    ground (arith, low_byte status, d.exited_code),
    (let r = reads (status % 256 * 256) (omega arith) in ground arith),
  )

  -- a signal, in the lowest seven bits, with a bit for a core dump above
  Gives-killed : Gives abi abi.cld_killed status (status % 128 == 0) 0 (status % 128) true
  unfolding wait_status
  Gives-killed = (
    status % 128,
    ground (arith, low_seven status, d.killed_code, d.killed_exited),
    (let r = reads (status % 128) (omega arith) in ground arith),
  )

  Gives-dumped : Gives abi abi.cld_dumped status (status % 128 == 0) 0 (status % 128) true
  unfolding wait_status
  Gives-dumped = (
    status % 128 + 128,
    ground (
      arith,
      low_seven status,
      bit_or-shifted_right 7 1 (status % 128) (omega arith),
      d.dumped_code,
      d.dumped_exited,
      d.dumped_killed,
    ),
    (let r = reads (status % 128 + 128) (omega arith) in ground arith),
  )

  Gives-stopped :
      status < 2 ^ 23 → Gives abi abi.cld_stopped status false (status % 256) 127 (status == 0)
  unfolding wait_status
  Gives-stopped h = (
    status * 256 + 127,
    ground (arith, d.stopped_code, d.stopped_exited, d.stopped_killed, d.stopped_dumped),
    (let r = reads (status * 256 + 127) (omega arith) in ground arith),
  )

-- Where the kernel's codes for an exit, a signal, a core dump and a stop differ from each other
-- and from 0: the status that waitpid makes of an exit reads as exited, with the low byte of the
-- exit code; that of a signal or a core dump reads as signaled, by the low seven bits of its
-- number, and as exited just if these are 0; that of a stop by a signal below 2 ^ 23 reads as not
-- exited, with the low byte of the signal in the place of the exit code. A status 0, of an exit
-- without error, reads as signaled as well as exited.
pub wait_status-Says :
    (abi : WaitAbi)
    → Distinct abi
    → (status : ℕ)
    → Gives abi abi.cld_exited status true (status % 256) 0 (status % 256 == 0)
      × Gives abi abi.cld_killed status (status % 128 == 0) 0 (status % 128) true
      × Gives abi abi.cld_dumped status (status % 128 == 0) 0 (status % 128) true
      × (status < 2 ^ 23 → Gives abi abi.cld_stopped status false (status % 256) 127 (status == 0))
wait_status-Says abi d status = (
  Gives-exited abi d status,
  Gives-killed abi d status,
  Gives-dumped abi d status,
  Gives-stopped abi d status,
)
