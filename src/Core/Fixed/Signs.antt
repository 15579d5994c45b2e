-- ===== src/Core/Fixed/Signs.antt =====
-- The conversions of a finite number, by its sign.
use dpsa4fl.Base.{
  ◌∙◌, ap, refl, none, some, ℕ, ◌-◌, ◌*◌, ◌%◌, ◌^◌, ◌≡◌, Bool, true, false, ite, dec_lt, ok, err,
  not_an_integer,
}
use dpsa4fl.Core.Tag.{FixedTypeTag}
use dpsa4fl.Core.Fixed.Binary.{
  or_err, Float, finite, frac_bits, down, up, truncate, convert, convert_down, convert_up,
  round_down, round_up,
}
use dpsa4fl.Core.Fixed.Order.{one_le_two-pow}
use native.Mathlib.Nat.{mul-div_cancel}

module _ (w : ℕ) where
  -- The truncation of a whole number.
  truncate_pos :
      (n k : ℕ) → truncate w (finite false (n * 2 ^ k) k) ≡ ite (dec_lt n (2 ^ w)) (some n) none
  unfolding truncate
  truncate_pos n k = rw (mul-div_cancel n (one_le_two-pow k)) refl

  truncate_neg :
      (n k : ℕ)
      → truncate w (finite true (n * 2 ^ k) k)
        ≡ ite (dec_lt (2 ^ w) n) none (some ((2 * 2 ^ w - n) % (2 * 2 ^ w)))
  unfolding truncate
  truncate_neg n k = rw (mul-div_cancel n (one_le_two-pow k)) refl

ite_ok :
    {P : Type 0} (d : Dec P) (b : ℕ)
    → or_err (ite d (some b) none) not_an_integer ≡ ite d (ok b) (err not_an_integer)
ite_ok (yes p) b = refl
ite_ok (no n) b = refl

ite_err :
    {P : Type 0} (d : Dec P) (b : ℕ)
    → or_err (ite d none (some b)) not_an_integer ≡ ite d (err not_an_integer) (ok b)
ite_err (yes p) b = refl
ite_err (no n) b = refl

-- What becomes of a whole number of either sign.
module _ (tag : FixedTypeTag) (f : Float → Float) (s : Bool) (m k n : ℕ) where
  rounded_pos :
      f (finite s (m * 2 ^ frac_bits tag) k) ≡ finite false (n * 2 ^ k) k
      → convert tag f (finite s m k)
        ≡ ite (dec_lt n (2 ^ frac_bits tag)) (ok n) (err not_an_integer)
  unfolding convert
  rounded_pos e =
      ap (λ y. or_err (truncate (frac_bits tag) y) not_an_integer) e
      ∙ (ap (λ o. or_err o not_an_integer) (truncate_pos (frac_bits tag) n k)
          ∙ ite_ok (dec_lt n (2 ^ frac_bits tag)) n)

  rounded_neg :
      f (finite s (m * 2 ^ frac_bits tag) k) ≡ finite true (n * 2 ^ k) k
      → convert tag f (finite s m k)
        ≡ ite
            (dec_lt (2 ^ frac_bits tag) n)
            (err not_an_integer)
            (ok ((2 * 2 ^ frac_bits tag - n) % (2 * 2 ^ frac_bits tag)))
  unfolding convert
  rounded_neg e =
      ap (λ y. or_err (truncate (frac_bits tag) y) not_an_integer) e
      ∙ (ap (λ o. or_err o not_an_integer) (truncate_neg (frac_bits tag) n k)
          ∙ ite_err (dec_lt (2 ^ frac_bits tag) n)
              ((2 * 2 ^ frac_bits tag - n) % (2 * 2 ^ frac_bits tag)))

-- The two conversions of a number of either sign.
module _ (tag : FixedTypeTag) (m k : ℕ) where
  pub floor_pos :
      convert_down tag (finite false m k)
      ≡ ite
          (dec_lt (down (m * 2 ^ frac_bits tag) k) (2 ^ frac_bits tag))
          (ok (down (m * 2 ^ frac_bits tag) k))
          (err not_an_integer)
  unfolding convert_down
  floor_pos = rounded_pos tag round_down false m k (down (m * 2 ^ frac_bits tag) k) refl

  pub floor_neg :
      convert_down tag (finite true m k)
      ≡ ite
          (dec_lt (2 ^ frac_bits tag) (up (m * 2 ^ frac_bits tag) k))
          (err not_an_integer)
          (ok ((2 * 2 ^ frac_bits tag - up (m * 2 ^ frac_bits tag) k) % (2 * 2 ^ frac_bits tag)))
  unfolding convert_down
  floor_neg = rounded_neg tag round_down true m k (up (m * 2 ^ frac_bits tag) k) refl

  pub ceil_pos :
      convert_up tag (finite false m k)
      ≡ ite
          (dec_lt (up (m * 2 ^ frac_bits tag) k) (2 ^ frac_bits tag))
          (ok (up (m * 2 ^ frac_bits tag) k))
          (err not_an_integer)
  unfolding convert_up
  ceil_pos = rounded_pos tag round_up false m k (up (m * 2 ^ frac_bits tag) k) refl

  pub ceil_neg :
      convert_up tag (finite true m k)
      ≡ ite
          (dec_lt (2 ^ frac_bits tag) (down (m * 2 ^ frac_bits tag) k))
          (err not_an_integer)
          (ok ((2 * 2 ^ frac_bits tag - down (m * 2 ^ frac_bits tag) k) % (2 * 2 ^ frac_bits tag)))
  unfolding convert_up
  ceil_neg = rounded_neg tag round_up true m k (down (m * 2 ^ frac_bits tag) k) refl
