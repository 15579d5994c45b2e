-- ===== src/Core/Fixed/Laws.antt =====
-- What theorems assume of the numbers of other crates: the IEEE 754 formats of `f32` and `f64`, the
-- widths of `FixedI16<U15>` and `FixedI32<U31>`, and the documented range of `NumCast`.
use dpsa4fl.Base.{ℕ, ◌*◌, ◌^◌, ◌≤◌, ◌<◌, ◌≡◌, ◌⊎◌, some, Bool}
use dpsa4fl.Core.Tag.{FixedTypeTag}
use dpsa4fl.External.Numbers.{Numbers}
use dpsa4fl.Core.Fixed.Binary.{
  Float, finite, infinite, frac_bits, scale, round_down, round_up, truncate,
}

-- A magnitude of at least two, which `NaN` and the infinities do not have.
abbrev pub IsLarge : Float → Type 0
IsLarge (finite s m k) = 2 * 2 ^ k ≤ m
IsLarge _ = ⊥

pub record IsFloating (N : Numbers) : Type 0 where
  -- the number that a floating-point number stands for
  pub number : N.Fl → Float
  pub frac_nbits_eq : (tag : FixedTypeTag) → N.frac_nbits tag ≡ frac_bits tag
  pub int_nbits_eq : (tag : FixedTypeTag) → N.int_nbits tag ≡ 1
  -- A power of two below 2 ^ 64 is represented, and the product with it is exact but for an overflow,
  -- which a factor below two in magnitude does not cause.
  pub from_power :
      (w : ℕ)
      → w < 64
      → (p : N.Fl) × (N.from (2 ^ w) ≡ some p)
        × ((x : N.Fl)
            → (number (N.mul x p) ≡ scale w (number x))
              ⊎ (IsLarge (number x) × ((s : Bool) × (number (N.mul x p) ≡ infinite s))))
  pub number-floor : (x : N.Fl) → number (N.floor x) ≡ round_down (number x)
  pub number-ceil : (x : N.Fl) → number (N.ceil x) ≡ round_up (number x)
  -- The cast cuts off the fraction, and is `None` where the rest does not fit.
  pub num_cast_eq :
      (tag : FixedTypeTag) (x : N.Fl) → N.num_cast tag x ≡ truncate (frac_bits tag) (number x)
