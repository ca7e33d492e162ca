-- ===== src/Stdio/Printf/Bounded.antt =====
-- `vsnprintf` on a format with no percent sign: what stands in the buffer, and what is left alone.
use nolibc.Prelude.{
  ℕ, ◌+◌, ◌-◌, ◌%◌, ◌^◌, ◌<◌, ◌≡◌, ◌≢◌, refl, some, List, arith, ltb, if◌then◌else◌, length, All,
}
use nolibc.Mem.{CStr, poke}
use nolibc.Mem.Laws.{SameOutside, Apart}
use nolibc.Str.Block.{memcpy}
use nolibc.Str.Block.Laws.{memcpy-copied}
use nolibc.Sys.World.{World}
use nolibc.Stdio.Printf.{Places}
use nolibc.Stdio.Printf.Family.{sprintf_cb, vsnprintf}
use nolibc.Stdio.Printf.Plain.{within, nolibc_printf-plain}

-- `sprintf_cb` copies and moves on
taken_by :
    {K : Type 0} (buf fmt n : ℕ) (w : World K)
    → sprintf_cb buf fmt n w ≡ some (record w { mem = (memcpy w.mem buf fmt n).0 }, buf + n, 0)
unfolding sprintf_cb
taken_by buf fmt n w = refl

module _ {K : Type 0} (at : Places) (scan fuel buf size fmt : ℕ) (args : List ℕ) (w : World K)
    (s : List ℕ) where
  -- For a format with no percent sign, shorter than 2 ^ 31 bytes, and a buffer of at least one byte
  -- that lies in the address space and does not overlap it, vsnprintf terminates, given more fuel than
  -- the format has bytes, and returns the length of the format; the buffer begins with the bytes of
  -- the format that fit, with a terminator behind them, and no byte outside the buffer changes.
  pub vsnprintf-plain :
      length s < fuel
      → CStr w.mem fmt s
      → All (λ c. c ≢ b'%') s
      → length s < 2 ^ 31
      → 0 < size
      → buf + size < 2 ^ 64
      → Apart buf size fmt (length s + 1)
      → (w' : World K) × (vsnprintf at scan fuel buf size fmt args w ≡ some (w', length s))
        × ((i : ℕ) → i < within (length s) (size - 1) → w'.mem (buf + i) ≡ w.mem (fmt + i))
        × (w'.mem (buf + within (length s) (size - 1)) ≡ 0)
        × SameOutside buf size w.mem w'.mem
  unfolding vsnprintf
  vsnprintf-plain f h a small some_room fits apart =
      let copy = (memcpy w.mem buf fmt (within (length s) size)).0 in
      let last = buf + within (length s) (size - 1) in
      let whole : length s % 2 ^ 32 ≡ length s = omega arith in
      let place : (buf + (if ltb (length s) size then length s else (size + (2 ^ 64 - 1)) % 2 ^ 64))
            % 2 ^ 64
          ≡ last =
        ground arith in
      (
        record w { mem = poke copy last 0 },
        rw
            (nolibc_printf-plain sprintf_cb at scan fuel buf size fmt args w
              (record w { mem = copy }) (buf + within (length s) size) s f h a (omega arith)
              (taken_by buf fmt (within (length s) size) w))
            (rw whole (rw place (ground arith))),
        (λ i lt. ground (arith, memcpy-copied w.mem buf fmt (within (length s) size) (buf + i))),
        ground arith,
        (λ i out. ground (arith, memcpy-copied w.mem buf fmt (within (length s) size) i)),
      )
