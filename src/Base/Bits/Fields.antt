-- ===== src/Base/Bits/Fields.antt =====
-- `|` of disjoint fields and `&` with a mask, as arithmetic.
use Prim.Native.Nat.{ℕ, zero, suc, ◌+◌, ◌-◌, ◌*◌, ◌/◌, ◌%◌, ◌^◌, ◌<◌, bit_and, bit_or}
use mathlib.Core.Path.{◌≡◌, ap, ◌∙◌}
use native.Mathlib.Nat.{pow-suc, one-le-pow}
use native.Mathlib.Omega.{arith}
use angl_os.Base.Bits.Step.{bit_and_step, bit_or_step, bit_and-zero, bit_or-zero, zero-bit_or}

scaled : (high width : ℕ) → high * 2 ^ suc width ≡ 2 * (high * 2 ^ width)
scaled high width = omega (arith, ap (λ (t : ℕ). high * t) (pow-suc 2 width))

-- `(high << width) | low` is a sum when `low` fits `width` bits.
pub bit_or_fields :
    (width high low : ℕ) → low < 2 ^ width → bit_or (high * 2 ^ width) low ≡ high * 2 ^ width + low
bit_or_fields zero high low fits = ground (arith, bit_or-zero high)
bit_or_fields (suc width) high low fits = ground (
  arith,
  bit_or_fields width high (low / 2) (omega (arith, pow-suc 2 width)),
  scaled high width,
  bit_or_step (high * 2 ^ suc width) low,
)

-- `x & (mask << width)` acts on the part of `x` from bit `width` on.
pub bit_and_fields :
    (width high low mask : ℕ)
    → low < 2 ^ width
    → bit_and (high * 2 ^ width + low) (mask * 2 ^ width) ≡ bit_and high mask * 2 ^ width
bit_and_fields zero high low mask fits = ground arith
bit_and_fields (suc width) high low mask fits = ground (
  arith,
  bit_and_step (high * 2 ^ suc width + low) (mask * 2 ^ suc width),
  scaled high width,
  scaled mask width,
  scaled (bit_and high mask) width,
  bit_and_fields width high (low / 2) mask (omega (arith, pow-suc 2 width)),
)

low_field :
    (width high low : ℕ) → low < 2 ^ width → bit_and (high * 2 ^ width + low) (2 ^ width - 1) ≡ low
low_field zero high low fits = omega (arith, bit_and-zero (high * 1 + low))
low_field (suc width) high low fits = ground (
  arith,
  bit_and_step (high * 2 ^ suc width + low) (2 ^ suc width - 1),
  scaled high width,
  pow-suc 2 width,
  low_field width high (low / 2) (omega (arith, pow-suc 2 width)),
)

-- A mask of `width` low bits is the remainder by `2 ^ width`.
pub bit_and_mask : (width a : ℕ) → bit_and a (2 ^ width - 1) ≡ a % 2 ^ width
bit_and_mask width a =
    ground (arith, one-le-pow width 2, low_field width (a / 2 ^ width) (a % 2 ^ width))

-- The same with the field above on the right.
pub bit_or_top :
    (width high low : ℕ) → low < 2 ^ width → bit_or low (high * 2 ^ width) ≡ high * 2 ^ width + low
bit_or_top zero high low fits =
    let none_below : low ≡ 0 = omega arith in rw none_below (zero-bit_or (high * 1) ∙ omega arith)
bit_or_top (suc width) high low fits = ground (
  arith,
  bit_or_top width high (low / 2) (omega (arith, pow-suc 2 width)),
  scaled high width,
  bit_or_step low (high * 2 ^ suc width),
)
