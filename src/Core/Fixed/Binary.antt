-- ===== src/Core/Fixed/Binary.antt =====
-- Binary fractions, the numbers that floating-point numbers stand for, and the conversion to
-- fixed-point numbers on them. A finite number is its sign and a magnitude `m / 2 ^ k`; the
-- operations keep the denominator, as a floating-point format has a smallest unit.
use dpsa4fl.Base.{
  Error, ℕ, ◌+◌, ◌-◌, ◌*◌, ◌/◌, ◌%◌, ◌^◌, Bool, true, false, Option, none, some, Outcome, ok, err,
  ite, dec_lt, not_an_integer,
}
use dpsa4fl.Core.Tag.{FixedTypeTag, fixed_type_16_bit, fixed_type_32_bit}

pub data Float : Type 0 where
  nan : Float
  infinite : Bool → Float
  -- whether it is negative, and the magnitude: a numerator, and the exponent of the denominator
  finite : Bool → ℕ → ℕ → Float

-- The fraction bits of a tag.
abbrev pub frac_bits : FixedTypeTag → ℕ
frac_bits fixed_type_16_bit = 15
frac_bits fixed_type_32_bit = 31

-- `x * 2 ^ w`
unfoldable pub scale : ℕ → Float → Float
scale w (finite s m k) = finite s (m * 2 ^ w) k
scale w (infinite s) = infinite s
scale w nan = nan

-- A magnitude rounded down and up to a whole number.
abbrev pub down : ℕ → ℕ → ℕ
down m k = m / 2 ^ k

abbrev pub up : ℕ → ℕ → ℕ
up m k = (m + (2 ^ k - 1)) / 2 ^ k

unfoldable pub round_down : Float → Float
round_down (finite false m k) = finite false (down m k * 2 ^ k) k
round_down (finite true m k) = finite true (up m k * 2 ^ k) k
round_down (infinite s) = infinite s
round_down nan = nan

unfoldable pub round_up : Float → Float
round_up (finite false m k) = finite false (up m k * 2 ^ k) k
round_up (finite true m k) = finite true (down m k * 2 ^ k) k
round_up (infinite s) = infinite s
round_up nan = nan

-- The bit pattern, of `w + 1` bits, of the signed integer that is left when the fraction is cut off,
-- and `none` where it does not fit.
unfoldable pub truncate : ℕ → Float → Option ℕ
truncate w (finite false m k) = ite (dec_lt (down m k) (2 ^ w)) (some (down m k)) none
truncate w (finite true m k) =
    ite (dec_lt (2 ^ w) (down m k)) none (some ((2 * 2 ^ w - down m k) % (2 * 2 ^ w)))
truncate w (infinite s) = none
truncate w nan = none

-- `option.ok_or(e)?`
abbrev pub or_err {ℓ} : {A : Type ℓ} → Option A → Error → Outcome A
or_err none e = err e
or_err (some a) e = ok a

-- The bit pattern that the conversion makes of an exact number.
unfoldable pub convert : FixedTypeTag → (Float → Float) → Float → Outcome ℕ
unfolding truncate scale
convert tag f x = or_err (truncate (frac_bits tag) (f (scale (frac_bits tag) x))) not_an_integer

unfoldable pub convert_down : FixedTypeTag → Float → Outcome ℕ
unfolding convert round_down
convert_down tag x = convert tag round_down x

unfoldable pub convert_up : FixedTypeTag → Float → Outcome ℕ
unfolding convert round_up
convert_up tag x = convert tag round_up x
