-- ===== src/Core/Fixed.antt =====
-- Floating-point numbers turned into fixed-point numbers (src/core/fixed.rs).
pub mod Binary
pub mod Order
pub mod Rounding
pub mod Signs
pub mod Range
pub mod Exact
pub mod Laws
pub mod Conversions
pub mod Sample
use dpsa4fl.Base.{
  ◌+◌, ◌-◌, ◌^◌, Option, none, some, Outcome, ok, err, power_not_representable, not_an_integer,
}
use dpsa4fl.Core.Tag.{FixedTypeTag}
use dpsa4fl.External.Numbers.{Numbers}

module _ (N : Numbers) where
  unfoldable pub float_to_fixed_with :
      (tag : FixedTypeTag) → N.Fl → (N.Fl → N.Fl) → Outcome (N.Fx tag)
  float_to_fixed_with tag x f =
      let n = N.frac_nbits tag + N.int_nbits tag in
      elim (N.from (2 ^ (n - 1))) [
        | none ↦ err power_not_representable
        | some p ↦ elim (N.num_cast tag (f (N.mul x p))) [
          | none ↦ err not_an_integer
          | some b ↦ ok (N.from_bits tag b)
        ]
      ]

  unfoldable pub float_to_fixed_floor : (tag : FixedTypeTag) → N.Fl → Outcome (N.Fx tag)
  unfolding float_to_fixed_with
  float_to_fixed_floor tag x = float_to_fixed_with tag x N.floor

  unfoldable pub float_to_fixed_ceil : (tag : FixedTypeTag) → N.Fl → Outcome (N.Fx tag)
  unfolding float_to_fixed_with
  float_to_fixed_ceil tag x = float_to_fixed_with tag x N.ceil
