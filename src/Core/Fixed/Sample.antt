-- ===== src/Core/Fixed/Sample.antt =====
-- Numbers that meet the laws: binary fractions without bounds, and bit patterns.
use dpsa4fl.Base.{ℕ, ◌+◌, ◌*◌, ◌^◌, ◌≡◌, ap, refl, inl, Bool, true, false, some}
use native.Mathlib.Nat.{add-zero}
use dpsa4fl.External.Numbers.{Numbers}
use dpsa4fl.Core.Fixed.Binary.{
  Float, finite, infinite, nan, frac_bits, scale, round_down, round_up, truncate,
}
use dpsa4fl.Core.Fixed.Laws.{IsFloating}

abbrev xor : Bool → Bool → Bool
xor true true = false
xor true false = true
xor false b = b

abbrev product : Float → Float → Float
product (finite s m k) (finite t n j) = finite (xor s t) (m * n) (k + j)
product (infinite s) (finite t n j) = infinite (xor s t)
product _ _ = nan

abbrev pub binary : Numbers
binary = record {
  Fl = Float;
  mul = product;
  from = λ n. some (finite false n 0);
  floor = round_down;
  ceil = round_up;
  Fx = λ tag. ℕ;
  frac_nbits = frac_bits;
  int_nbits = λ tag. 1;
  from_bits = λ tag b. b;
  num_cast = λ tag x. truncate (frac_bits tag) x;
}

pub product-scale : (w : ℕ) (x : Float) → product x (finite false (2 ^ w) 0) ≡ scale w x
unfolding scale
product-scale w (finite true m k) = ap (finite true (m * 2 ^ w)) (add-zero k)
product-scale w (finite false m k) = ap (finite false (m * 2 ^ w)) (add-zero k)
product-scale w (infinite true) = refl
product-scale w (infinite false) = refl
product-scale w nan = refl

abbrev pub binary-IsFloating : IsFloating binary
binary-IsFloating = record {
  number = λ x. x;
  frac_nbits_eq = λ tag. refl;
  int_nbits_eq = λ tag. refl;
  from_power = λ w small. (finite false (2 ^ w) 0, refl, λ x. inl (product-scale w x));
  number-floor = λ x. refl;
  number-ceil = λ x. refl;
  num_cast_eq = λ tag x. refl;
}
