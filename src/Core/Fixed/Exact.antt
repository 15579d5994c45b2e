-- ===== src/Core/Fixed/Exact.antt =====
-- The bounds of the upward conversion, and the numbers on which no rounding is needed.
use dpsa4fl.Base.{
  subst, sym, ℕ, ◌+◌, ◌-◌, ◌*◌, ◌%◌, ◌^◌, ◌≤◌, ◌<◌, ◌≡◌, ◌↔◌, ◌∙◌, true, false, if_pos, if_neg,
  dec_lt, arith, ok, is_ok,
}
use native.Mathlib.Nat.{mul-div_cancel}
use dpsa4fl.Core.Tag.{FixedTypeTag}
use dpsa4fl.Core.Fixed.Binary.{
  Float, frac_bits, finite, infinite, nan, down, up, convert_down, convert_up,
}
use dpsa4fl.Core.Fixed.Order.{
  value, value_pos, value_neg, IsLe, IsSame, one_le_two-pow, down_iff, up_iff, times_cancel,
}
use dpsa4fl.Core.Fixed.Rounding.{pattern_neg, pattern_zero}
use dpsa4fl.Core.Fixed.Signs.{floor_pos, floor_neg, ceil_pos, ceil_neg}
use dpsa4fl.Core.Fixed.Range.{accepts_yes, accepts_no}

-- `convert_up` accepts exactly the numbers up to `1 - 2 ^ -w`, the greatest fixed-point
-- number, that are above `-1 - 2 ^ -w`: those below -1 among them are rounded up to it.
pub convert_up_iff :
    (tag : FixedTypeTag) (x : Float)
    → let w = frac_bits tag in
      (is_ok (convert_up tag x) ≡ true)
      ↔ (IsLe x (finite false (2 ^ w - 1) w) × (¬ IsLe x (finite true (2 ^ w + 1) w)))
unfolding convert_up
convert_up_iff tag (finite false m k) =
    let w = frac_bits tag in
    let u = up (m * 2 ^ w) k in
    let d = up_iff (2 ^ w - 1) (m * 2 ^ w) k in
    let t = accepts_yes (dec_lt u (2 ^ w)) u in
    rw (ceil_pos tag m k) (
      λ h. (d.0 (omega (arith, t.0 h)), λ e. omega (arith, e.1)),
      λ h. t.1 (omega (arith, d.1 h.0, one_le_two-pow w)),
    )
convert_up_iff tag (finite true m k) =
    let w = frac_bits tag in
    let u = down (m * 2 ^ w) k in
    let d = down_iff (2 ^ w + 1) (m * 2 ^ w) k in
    let t = accepts_no (dec_lt (2 ^ w) u) ((2 * 2 ^ w - u) % (2 * 2 ^ w)) in
    rw (ceil_neg tag m k)
      (λ h. (tt, λ e. t.0 h (omega (arith, d.1 e))), λ h. t.1 (λ p. h.1 (d.0 (omega arith))))
convert_up_iff tag (infinite s) = (λ h. absurd (cc), λ h. absurd h.0)
convert_up_iff tag nan = (λ h. absurd (cc), λ h. absurd h.0)

-- A multiple of the unit is rounded to itself.
down_exact : (a w : ℕ) → down (a * 2 ^ w) w ≡ a
down_exact a w = mul-div_cancel a (one_le_two-pow w)

up_exact : (a w : ℕ) → up (a * 2 ^ w) w ≡ a
up_exact a w =
    let below = (up_iff a (a * 2 ^ w) w).1 (omega arith) in
    let above =
      (times_cancel a (up (a * 2 ^ w) w) w).0
        ((up_iff (up (a * 2 ^ w) w) (a * 2 ^ w) w).0 (omega arith)) in
    omega (arith, below, above)

-- A pattern of the upper half, from its distance to the end.
pattern_back :
    (w b : ℕ) → 2 ^ w ≤ b → b < 2 * 2 ^ w → (2 * 2 ^ w - (2 * 2 ^ w - b)) % (2 * 2 ^ w) ≡ b
pattern_back w b h fits = pattern_neg w (2 * 2 ^ w - b) (omega arith) (omega arith) ∙ omega arith

-- A magnitude that is `a`, scaled by `2 ^ w`, needs no rounding.
exact :
    (a m w k : ℕ)
    → m * 2 ^ w ≤ a * 2 ^ k
    → a * 2 ^ k ≤ m * 2 ^ w
    → (down (m * 2 ^ w) k ≡ a) × (up (m * 2 ^ w) k ≡ a)
exact a m w k h h' =
    let e : m * 2 ^ w ≡ a * 2 ^ k = omega (arith, h, h') in rw e (down_exact a k, up_exact a k)

-- What both conversions are to give.
abbrev Gives : FixedTypeTag → Float → ℕ → Type 0
Gives tag x b = (convert_down tag x ≡ ok b) × (convert_up tag x ≡ ok b)

exact_pos :
    (tag : FixedTypeTag) (a m k : ℕ)
    → a < 2 ^ frac_bits tag
    → IsSame (finite false m k) (finite false a (frac_bits tag))
    → Gives tag (finite false m k) a
exact_pos tag a m k small (h, h') =
    let w = frac_bits tag in
    let (low, high) = exact a m w k h h' in
    rw (floor_pos tag m k, ceil_pos tag m k, low, high)
      (if_pos (dec_lt a (2 ^ w)) small _ _, if_pos (dec_lt a (2 ^ w)) small _ _)

exact_neg :
    (tag : FixedTypeTag) (g m k : ℕ)
    → g ≤ 2 ^ frac_bits tag
    → IsSame (finite true m k) (finite true g (frac_bits tag))
    → Gives tag (finite true m k) ((2 * 2 ^ frac_bits tag - g) % (2 * 2 ^ frac_bits tag))
exact_neg tag g m k low (h', h) =
    let w = frac_bits tag in
    let small : ¬ (2 ^ w < g) = λ q. omega (arith, low) in
    let (lows, highs) = exact g m w k h h' in
    rw (floor_neg tag m k, ceil_neg tag m k, lows, highs)
      (if_neg (dec_lt (2 ^ w) g) small _ _, if_neg (dec_lt (2 ^ w) g) small _ _)

-- Both conversions take any representation of the number that a bit pattern stands for to that
-- pattern.
pub convert-value :
    (tag : FixedTypeTag) (x : Float) (b : ℕ)
    → b < 2 * 2 ^ frac_bits tag
    → IsSame x (value (frac_bits tag) b)
    → Gives tag x b
convert-value tag x b fits =
    let w = frac_bits tag in
    elim (dec_lt b (2 ^ w)) [
      | yes p ↦ rw (value_pos w b p) (by_sign x p)
      | no p ↦ rw (value_neg w b (omega arith)) (above x (omega arith))
    ]
  where
    by_sign :
        (y : Float)
        → b < 2 ^ frac_bits tag
        → IsSame y (finite false b (frac_bits tag))
        → Gives tag y b
    by_sign (finite false m k) p h = exact_pos tag b m k p h
    by_sign (finite true m k) p (h, (e, e')) =
        let w = frac_bits tag in
        let same : IsSame (finite true m k) (finite true 0 w) = rw e' (omega arith, omega arith) in
        subst (Gives tag (finite true m k)) (pattern_zero w ∙ sym e)
          (exact_neg tag 0 m k (omega arith) same)
    by_sign (infinite s) p h = absurd h.0
    by_sign nan p h = absurd h.0

    above :
        (y : Float)
        → 2 ^ frac_bits tag ≤ b
        → IsSame y (finite true (2 * 2 ^ frac_bits tag - b) (frac_bits tag))
        → Gives tag y b
    above (finite false m k) p (h, h') = absurd (omega (arith, h.1, fits))
    above (finite true m k) p h =
        rw (← pattern_back (frac_bits tag) b p fits)
          (exact_neg tag (2 * 2 ^ frac_bits tag - b) m k (omega (arith, p)) h)
    above (infinite s) p h = absurd h.0
    above nan p h = absurd h.0
