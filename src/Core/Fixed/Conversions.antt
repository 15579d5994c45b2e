-- ===== src/Core/Fixed/Conversions.antt =====
-- The conversions of src/core/fixed.rs against the exact conversion of the number that a
-- floating-point number stands for.
use dpsa4fl.Base.{
  ◌⊎◌, ℕ, ◌+◌, ◌-◌, ◌*◌, ◌^◌, ◌<◌, ◌≡◌, ◌↔◌, ◌∙◌, ap, sym, refl, Bool, true, false, arith, inl, inr,
  Option, none, some, Outcome, ok, err, panic, is_ok, not_an_integer,
}
use dpsa4fl.Core.Tag.{FixedTypeTag, fixed_type_16_bit, fixed_type_32_bit}
use dpsa4fl.External.Numbers.{Numbers}
use dpsa4fl.Core.Fixed.{float_to_fixed_with, float_to_fixed_floor, float_to_fixed_ceil}
use dpsa4fl.Core.Fixed.Binary.{
  Float, finite, infinite, nan, frac_bits, scale, round_down, round_up, truncate, or_err, convert,
  convert_down, convert_up,
}
use dpsa4fl.Core.Fixed.Order.{value, IsLe, IsSame, one_le_two-pow}
use dpsa4fl.Core.Fixed.Rounding.{IsFloor, IsCeil}
use dpsa4fl.Core.Fixed.Range.{convert_down-IsFloor, convert_up-IsCeil, convert_down_iff}
use dpsa4fl.Core.Fixed.Exact.{convert_up_iff, convert-value}
use dpsa4fl.Core.Fixed.Laws.{IsLarge, IsFloating}

frac_bits-lt : (tag : FixedTypeTag) → frac_bits tag < 64
frac_bits-lt fixed_type_16_bit = omega arith
frac_bits-lt fixed_type_32_bit = omega arith

-- A large number is refused.
down_large : (tag : FixedTypeTag) (x : Float) → IsLarge x → is_ok (convert_down tag x) ≡ true → ⊥
down_large tag (finite false m k) l h =
    ((convert_down_iff tag (finite false m k)).0 h).1 (omega arith)
down_large tag (finite true m k) l h =
    omega (arith, ((convert_down_iff tag (finite true m k)).0 h).0, one_le_two-pow k)
down_large tag (infinite s) l h = l
down_large tag nan l h = l

up_large : (tag : FixedTypeTag) (x : Float) → IsLarge x → is_ok (convert_up tag x) ≡ true → ⊥
up_large fixed_type_16_bit (finite false m k) l h =
    omega (arith, ((convert_up_iff fixed_type_16_bit (finite false m k)).0 h).0, one_le_two-pow k)
up_large fixed_type_32_bit (finite false m k) l h =
    omega (arith, ((convert_up_iff fixed_type_32_bit (finite false m k)).0 h).0, one_le_two-pow k)
up_large fixed_type_16_bit (finite true m k) l h =
    ((convert_up_iff fixed_type_16_bit (finite true m k)).0 h).1 (omega arith)
up_large fixed_type_32_bit (finite true m k) l h =
    ((convert_up_iff fixed_type_32_bit (finite true m k)).0 h).1 (omega arith)
up_large tag (infinite s) l h = l
up_large tag nan l h = l

refused : (o : Option ℕ) → (is_ok (or_err o not_an_integer) ≡ true → ⊥) → o ≡ none
refused none h = refl
refused (some b) h = absurd (h refl)

module _ (N : Numbers) (law : IsFloating N) where
  -- The fixed-point number of a bit pattern.
  abbrev as_fixed : (tag : FixedTypeTag) → Outcome ℕ → Outcome (N.Fx tag)
  as_fixed tag (ok b) = ok (N.from_bits tag b)
  as_fixed tag (err e) = err e
  as_fixed tag (panic p) = panic p

  is_ok-as_fixed : (tag : FixedTypeTag) (r : Outcome ℕ) → is_ok (as_fixed tag r) ≡ is_ok r
  is_ok-as_fixed tag (ok b) = refl
  is_ok-as_fixed tag (err e) = refl
  is_ok-as_fixed tag (panic p) = refl

  of_pattern :
      (tag : FixedTypeTag) (r : Outcome ℕ) (f : N.Fx tag)
      → as_fixed tag r ≡ ok f
      → (b : ℕ) × (r ≡ ok b) × (f ≡ N.from_bits tag b)
  of_pattern tag (ok b) f h = (b, refl, cc)
  of_pattern tag (err e) f h = cc
  of_pattern tag (panic p) f h = cc

  -- The conversion with a rounding that agrees with one of exact numbers.
  module _ (tag : FixedTypeTag) (f : N.Fl → N.Fl) (g : Float → Float)
      (agrees : (x : N.Fl) → law.number (f x) ≡ g (law.number x))
      (endless : (s : Bool) → g (infinite s) ≡ infinite s)
      (large : (x : Float) → IsLarge x → is_ok (convert tag g x) ≡ true → ⊥) where
    finish :
        (o : Option ℕ)
        → (elim o [ none ↦ err not_an_integer | some b ↦ ok (N.from_bits tag b) ])
          ≡ as_fixed tag (or_err o not_an_integer)
    finish none = refl
    finish (some b) = refl

    cast_eq :
        (x p : N.Fl)
        → N.num_cast tag (f (N.mul x p)) ≡ truncate (frac_bits tag) (g (law.number (N.mul x p)))
    cast_eq x p =
        law.num_cast_eq tag (f (N.mul x p)) ∙ ap (truncate (frac_bits tag)) (agrees (N.mul x p))

    cast_scaled :
        (x p : N.Fl)
        → (law.number (N.mul x p) ≡ scale (frac_bits tag) (law.number x))
          ⊎ (IsLarge (law.number x) × ((s : Bool) × (law.number (N.mul x p) ≡ infinite s)))
        → N.num_cast tag (f (N.mul x p))
          ≡ truncate (frac_bits tag) (g (scale (frac_bits tag) (law.number x)))
    unfolding convert
    cast_scaled x p (inl e) = cast_eq x p ∙ ap (λ y. truncate (frac_bits tag) (g y)) e
    cast_scaled x p (inr (l, (s, e))) =
        cast_eq x p
        ∙ (ap (truncate (frac_bits tag)) (ap g e ∙ endless s)
            ∙ sym (refused _ (large (law.number x) l)))

    pub with_eq :
        (x : N.Fl) → float_to_fixed_with N tag x f ≡ as_fixed tag (convert tag g (law.number x))
    unfolding float_to_fixed_with convert
    with_eq x =
        let (p, from, exact) = law.from_power (frac_bits tag) (frac_bits-lt tag) in
        let less_one : frac_bits tag + 1 - 1 ≡ frac_bits tag = omega arith in
        rw
          (
            float_to_fixed_with,
            convert,
            law.frac_nbits_eq tag,
            law.int_nbits_eq tag,
            less_one,
            from,
            cast_scaled x p (exact x),
          )
          (finish (truncate (frac_bits tag) (g (scale (frac_bits tag) (law.number x)))))

  module _ (tag : FixedTypeTag) (x : N.Fl) where
    floor_eq : float_to_fixed_floor N tag x ≡ as_fixed tag (convert_down tag (law.number x))
    unfolding float_to_fixed_floor convert_down
    floor_eq = with_eq tag N.floor round_down law.number-floor (λ s. refl) (down_large tag) x

    ceil_eq : float_to_fixed_ceil N tag x ≡ as_fixed tag (convert_up tag (law.number x))
    unfolding float_to_fixed_ceil convert_up
    ceil_eq = with_eq tag N.ceil round_up law.number-ceil (λ s. refl) (up_large tag) x

    -- Over numbers with the laws of their crates: if `float_to_fixed_floor` gives a number, it is
    -- the greatest fixed-point number of its type that is at most the argument.
    pub float_to_fixed_floor-IsFloor :
        (f : N.Fx tag)
        → float_to_fixed_floor N tag x ≡ ok f
        → (b : ℕ) × (f ≡ N.from_bits tag b) × IsFloor (frac_bits tag) (law.number x) b
    float_to_fixed_floor-IsFloor f h =
        let (b, e, same) = of_pattern tag _ f (sym floor_eq ∙ h) in
        (b, same, convert_down-IsFloor tag (law.number x) b e)

    -- Over numbers with the laws of their crates: if `float_to_fixed_ceil` gives a number, it is
    -- the least fixed-point number of its type that is at least the argument.
    pub float_to_fixed_ceil-IsCeil :
        (f : N.Fx tag)
        → float_to_fixed_ceil N tag x ≡ ok f
        → (b : ℕ) × (f ≡ N.from_bits tag b) × IsCeil (frac_bits tag) (law.number x) b
    float_to_fixed_ceil-IsCeil f h =
        let (b, e, same) = of_pattern tag _ f (sym ceil_eq ∙ h) in
        (b, same, convert_up-IsCeil tag (law.number x) b e)

    -- Over numbers with the laws of their crates, and with `w` fraction bits: `float_to_fixed_floor`
    -- accepts exactly the numbers from -1 on and below 1, and `float_to_fixed_ceil` exactly those up to
    -- `1 - 2 ^ -w`, the greatest fixed-point number, that are above `-1 - 2 ^ -w`.
    pub float_to_fixed_iff :
        ((is_ok (float_to_fixed_floor N tag x) ≡ true)
          ↔ (IsLe (finite true 1 0) (law.number x) × (¬ IsLe (finite false 1 0) (law.number x))))
        × ((is_ok (float_to_fixed_ceil N tag x) ≡ true) ↔ (
            IsLe (law.number x) (finite false (2 ^ frac_bits tag - 1) (frac_bits tag))
            × (¬ IsLe (law.number x) (finite true (2 ^ frac_bits tag + 1) (frac_bits tag)))))
    float_to_fixed_iff = (
      rw (floor_eq, is_ok-as_fixed tag (convert_down tag (law.number x)))
          (convert_down_iff tag (law.number x)),
      rw (ceil_eq, is_ok-as_fixed tag (convert_up tag (law.number x)))
          (convert_up_iff tag (law.number x)),
    )

    -- Over numbers with the laws of their crates, both conversions take a number that equals the one
    -- that a bit pattern stands for, in whatever representation, to the fixed-point number of that
    -- pattern.
    pub float_to_fixed-value :
        (b : ℕ)
        → b < 2 * 2 ^ frac_bits tag
        → IsSame (law.number x) (value (frac_bits tag) b)
        → (float_to_fixed_floor N tag x ≡ ok (N.from_bits tag b))
          × (float_to_fixed_ceil N tag x ≡ ok (N.from_bits tag b))
    float_to_fixed-value b fits same =
        let (low, high) = convert-value tag (law.number x) b fits same in
        (floor_eq ∙ ap (as_fixed tag) low, ceil_eq ∙ ap (as_fixed tag) high)
