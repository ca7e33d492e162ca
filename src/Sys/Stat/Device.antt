-- ===== src/Sys/Stat/Device.antt =====
-- Device numbers: what fstatat makes of the numbers of statx, and what the macros of sys/sysmacros.h
-- read from it.
use Prim.Native.Nat.{bit_and, bit_or}
use nolibc.Prelude.{ℕ, ◌+◌, ◌*◌, ◌/◌, ◌%◌, ◌^◌, ◌<◌, ◌≡◌, ◌∙◌, ap, arith}
use nolibc.Prelude.Bits.{
  low_byte, low_twelve, upper_bytes, bit_or-shifted, bit_or-shifted_right, shifted,
}
use nolibc.Sys.Stat.{encode_dev, makedev, major, minor}

-- `bit_or` adds two fields, of which the second has 8 or 20 zeros behind it
fields_eight : (a b : ℕ) → b < 256 → bit_or b (a * 256) ≡ b + a * 256
fields_eight a b h =
    let place : a * 256 ≡ shifted 8 a = omega arith in
    ap (bit_or b) place ∙ bit_or-shifted_right 8 a b (omega arith) ∙ omega arith

fields_twenty : (a b : ℕ) → b < 2 ^ 20 → bit_or b (a * 2 ^ 20) ≡ b + a * 2 ^ 20
fields_twenty a b h =
    let place : a * 2 ^ 20 ≡ shifted 20 a = omega arith in
    ap (bit_or b) place ∙ bit_or-shifted_right 20 a b (omega arith) ∙ omega arith

-- the numbers of three fields
pub encode_dev-value :
    (major_ minor_ : ℕ)
    → major_ < 2 ^ 12
    → minor_ < 2 ^ 20
    → encode_dev major_ minor_ ≡ minor_ % 256 + major_ * 256 + minor_ / 256 * 2 ^ 20
unfolding encode_dev
encode_dev-value major_ minor_ h l =
    let wide : major_ * 2 ^ 8 % 2 ^ 32 ≡ major_ * 256 = omega arith in
    let upper : minor_ / 256 * 256 * 2 ^ 12 % 2 ^ 32 ≡ minor_ / 256 * 2 ^ 20 = omega arith in
    rw (low_byte minor_) (
      rw (upper_bytes minor_ (omega arith)) (
        rw wide (
          rw upper (
            rw (fields_eight major_ (minor_ % 256) (omega arith))
              (fields_twenty (minor_ / 256) (minor_ % 256 + major_ * 256) (omega arith))))))

makedev-value :
    (major_ minor_ : ℕ)
    → major_ < 2 ^ 12
    → minor_ < 256
    → makedev major_ minor_ ≡ minor_ + major_ * 256
unfolding makedev
makedev-value major_ minor_ h l =
    let kept : bit_and major_ 0xfff * 2 ^ 8 % 2 ^ 32 ≡ shifted 8 major_ =
      omega (arith, low_twelve major_) in
    let byte : bit_and minor_ 0xff ≡ minor_ = omega (arith, low_byte minor_) in
    rw kept (rw byte (bit_or-shifted 8 major_ minor_ (omega arith) ∙ omega arith))

-- For a major number below 2 ^ 12 and a minor number below 2 ^ 20, the macro major gives back the
-- major number from the st_dev that fstatat stores, and minor the low byte of the minor number; where
-- the minor number is below 256, makedev makes the same st_dev of the two.
pub encode_dev-major :
    (major_ minor_ : ℕ)
    → major_ < 2 ^ 12
    → minor_ < 2 ^ 20
    → (major (encode_dev major_ minor_) ≡ major_)
      × (minor (encode_dev major_ minor_) ≡ minor_ % 256)
      × (minor_ < 256 → makedev major_ minor_ ≡ encode_dev major_ minor_)
unfolding major minor
encode_dev-major major_ minor_ h l =
    let value = encode_dev-value major_ minor_ h l in
    (
      low_twelve (encode_dev major_ minor_ / 2 ^ 8) ∙ omega arith,
      low_byte (encode_dev major_ minor_) ∙ omega arith,
      (λ small. omega (arith, makedev-value major_ minor_ h small)),
    )
