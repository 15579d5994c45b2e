-- ===== src/Core/Fixed/Rounding.antt =====
-- The conversions as rounding: the greatest fixed-point number below, and the least one above.
use dpsa4fl.Base.{refl, ℕ, zero, suc, ◌-◌, ◌*◌, ◌%◌, ◌^◌, ◌≤◌, ◌<◌, ◌≡◌, true, false, dec_lt, arith}
use dpsa4fl.Core.Fixed.Binary.{Float, finite}
use dpsa4fl.Core.Fixed.Order.{value, IsLe, one_le_two-pow, value_pos, value_neg, times_mono}
use native.Mathlib.Nat.{mod-eq_of_lt, mod_self}

-- A pattern `b` of `w + 1` bits is the greatest one that stands for a number below `x`.
pub record IsFloor (w : ℕ) (x : Float) (b : ℕ) : Type 0 where
  pub fits : b < 2 * 2 ^ w
  pub below : IsLe (value w b) x
  pub greatest : (c : ℕ) → c < 2 * 2 ^ w → IsLe (value w c) x → IsLe (value w c) (value w b)

pub IsFloor-positive :
    (w m k t : ℕ)
    → t < 2 ^ w
    → t * 2 ^ k ≤ m * 2 ^ w
    → ((c : ℕ) → c * 2 ^ k ≤ m * 2 ^ w → c ≤ t)
    → IsFloor w (finite false m k) t
IsFloor-positive w m k t small low best = record {
  fits = omega arith;
  below = rw (value_pos w t small) low;
  greatest = λ c fits. elim (dec_lt c (2 ^ w)) [
    | yes p ↦ rw (value_pos w c p, value_pos w t small) (λ h. times_mono c t w (best c h))
    | no p ↦ rw (value_neg w c (omega arith), value_pos w t small) (λ h. tt)
  ];
}

-- The pattern of a negative number.
pub pattern_neg : (w u : ℕ) → zero < u → u ≤ 2 ^ w → (2 * 2 ^ w - u) % (2 * 2 ^ w) ≡ 2 * 2 ^ w - u
pattern_neg w u p h = mod-eq_of_lt (omega (arith, one_le_two-pow w))

pub pattern_zero : (w : ℕ) → (2 * 2 ^ w - zero) % (2 * 2 ^ w) ≡ zero
pattern_zero w = let e : 2 * 2 ^ w - zero ≡ 2 * 2 ^ w = omega arith in rw e (mod_self (2 * 2 ^ w))

pub IsFloor-negative :
    (w m k u : ℕ)
    → u ≤ 2 ^ w
    → m * 2 ^ w ≤ u * 2 ^ k
    → ((c : ℕ) → m * 2 ^ w ≤ c * 2 ^ k → u ≤ c)
    → IsFloor w (finite true m k) ((2 * 2 ^ w - u) % (2 * 2 ^ w))
IsFloor-negative w m k zero h low best =
    let m_zero : m ≡ zero = grind (arith, one_le_two-pow w) in
    rw (pattern_zero w) (record {
      fits = omega (arith, one_le_two-pow w);
      below = rw (value_pos w zero (one_le_two-pow w)) (refl, m_zero);
      greatest = λ c fits. elim (dec_lt c (2 ^ w)) [
        | yes p ↦
            rw (value_pos w c p, value_pos w zero (one_le_two-pow w)) (λ h. rw h.0 (omega arith))
        | no p ↦ rw (value_neg w c (omega arith), value_pos w zero (one_le_two-pow w)) (λ h. tt)
      ];
    })
IsFloor-negative w m k (suc u) h low best =
    let big : 2 ^ w ≤ 2 * 2 ^ w - suc u = omega arith in
    let back : 2 * 2 ^ w - (2 * 2 ^ w - suc u) ≡ suc u = omega arith in
    rw (pattern_neg w (suc u) (omega arith) h) (record {
      fits = omega (arith, one_le_two-pow w);
      below = rw (value_neg w (2 * 2 ^ w - suc u) big, back) low;
      greatest = λ c fits. elim (dec_lt c (2 ^ w)) [
        | yes p ↦
            rw (value_pos w c p, value_neg w (2 * 2 ^ w - suc u) big)
              (λ h. absurd (grind (arith, one_le_two-pow w, best zero)))
        | no p ↦
            rw (value_neg w c (omega arith), value_neg w (2 * 2 ^ w - suc u) big, back)
              (λ h. times_mono (suc u) (2 * 2 ^ w - c) w (best (2 * 2 ^ w - c) h))
      ];
    })

-- A pattern `b` of `w + 1` bits is the least one that stands for a number above `x`.
pub record IsCeil (w : ℕ) (x : Float) (b : ℕ) : Type 0 where
  pub fits : b < 2 * 2 ^ w
  pub above : IsLe x (value w b)
  pub least : (c : ℕ) → c < 2 * 2 ^ w → IsLe x (value w c) → IsLe (value w b) (value w c)

pub IsCeil-positive :
    (w m k u : ℕ)
    → u < 2 ^ w
    → m * 2 ^ w ≤ u * 2 ^ k
    → ((c : ℕ) → m * 2 ^ w ≤ c * 2 ^ k → u ≤ c)
    → IsCeil w (finite false m k) u
IsCeil-positive w m k u small low best = record {
  fits = omega arith;
  above = rw (value_pos w u small) low;
  least = λ c fits. elim (dec_lt c (2 ^ w)) [
    | yes p ↦ rw (value_pos w c p, value_pos w u small) (λ h. times_mono u c w (best c h))
    | no p ↦
        rw (value_neg w c (omega arith), value_pos w u small)
          (λ h. absurd (zero_below (2 * 2 ^ w) c fits h.1))
  ];
}
  where
    zero_below : (a c : ℕ) → c < a → a - c ≡ zero → ⊥
    zero_below a c p e = omega arith

pub IsCeil-negative :
    (w m k t : ℕ)
    → t ≤ 2 ^ w
    → t * 2 ^ k ≤ m * 2 ^ w
    → ((c : ℕ) → c * 2 ^ k ≤ m * 2 ^ w → c ≤ t)
    → IsCeil w (finite true m k) ((2 * 2 ^ w - t) % (2 * 2 ^ w))
IsCeil-negative w m k zero h low best = rw (pattern_zero w) (record {
  fits = omega (arith, one_le_two-pow w);
  above = rw (value_pos w zero (one_le_two-pow w)) tt;
  least = λ c fits. elim (dec_lt c (2 ^ w)) [
    | yes p ↦ rw (value_pos w c p, value_pos w zero (one_le_two-pow w)) (λ h. zero_le _)
    | no p ↦
        rw (value_neg w c (omega arith), value_pos w zero (one_le_two-pow w))
          (λ h. absurd (zero_below (2 * 2 ^ w) c fits (best (2 * 2 ^ w - c) h)))
  ];
})
  where
    zero_below : (a c : ℕ) → c < a → a - c ≤ zero → ⊥
    zero_below a c p e = omega arith

    zero_le : (a : ℕ) → zero * 2 ^ w ≤ a
    zero_le a = omega arith
IsCeil-negative w m k (suc t) h low best =
    let big : 2 ^ w ≤ 2 * 2 ^ w - suc t = omega arith in
    let back : 2 * 2 ^ w - (2 * 2 ^ w - suc t) ≡ suc t = omega arith in
    rw (pattern_neg w (suc t) (omega arith) h) (record {
      fits = omega (arith, one_le_two-pow w);
      above = rw (value_neg w (2 * 2 ^ w - suc t) big, back) low;
      least = λ c fits. elim (dec_lt c (2 ^ w)) [
        | yes p ↦ rw (value_pos w c p, value_neg w (2 * 2 ^ w - suc t) big) (λ h. tt)
        | no p ↦
            rw (value_neg w c (omega arith), value_neg w (2 * 2 ^ w - suc t) big, back)
              (λ h. times_mono (2 * 2 ^ w - c) (suc t) w (best (2 * 2 ^ w - c) h))
      ];
    })
