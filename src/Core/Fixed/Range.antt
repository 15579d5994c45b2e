-- ===== src/Core/Fixed/Range.antt =====
-- What the conversions accept, and what they give there.
use dpsa4fl.Base.{
  ℕ, ◌-◌, ◌*◌, ◌%◌, ◌^◌, ◌≡◌, ◌↔◌, ◌∙◌, sym, refl, subst, true, false, ite, dec_lt, arith, ok, err,
  not_an_integer, is_ok,
}
use native.Mathlib.Nat.{mul_comm}
use dpsa4fl.Core.Tag.{FixedTypeTag}
use dpsa4fl.Core.Fixed.Binary.{
  Float, frac_bits, finite, infinite, nan, down, up, convert_down, convert_up,
}
use dpsa4fl.Core.Fixed.Order.{times_cancel, IsLe, down_iff, up_iff}
use dpsa4fl.Core.Fixed.Rounding.{
  IsFloor, IsCeil, IsFloor-positive, IsFloor-negative, IsCeil-positive, IsCeil-negative,
}
use dpsa4fl.Core.Fixed.Signs.{floor_pos, floor_neg, ceil_pos, ceil_neg}

-- A test that chose its value.
chose_yes :
    {P : Type 0} (d : Dec P) (a b : ℕ) → ite d (ok a) (err not_an_integer) ≡ ok b → P × (a ≡ b)
chose_yes (yes p) a b h = (p, cc)
chose_yes (no n) a b h = absurd (cc)

chose_no :
    {P : Type 0} (d : Dec P) (a b : ℕ) → ite d (err not_an_integer) (ok a) ≡ ok b → (¬ P) × (a ≡ b)
chose_no (yes p) a b h = absurd (cc)
chose_no (no n) a b h = (n, cc)

-- If `convert_down` gives a number, it is the greatest fixed-point number of its type that is
-- at most the argument.
pub convert_down-IsFloor :
    (tag : FixedTypeTag) (x : Float) (b : ℕ)
    → convert_down tag x ≡ ok b
    → IsFloor (frac_bits tag) x b
unfolding convert_down
convert_down-IsFloor tag (finite false m k) b h =
    let w = frac_bits tag in
    let t = down (m * 2 ^ w) k in
    let (small, same) = chose_yes (dec_lt t (2 ^ w)) t b (sym (floor_pos tag m k) ∙ h) in
    subst (IsFloor w (finite false m k)) same (
      IsFloor-positive w m k t small ((down_iff t (m * 2 ^ w) k).0 (omega arith))
        (λ c. (down_iff c (m * 2 ^ w) k).1))
convert_down-IsFloor tag (finite true m k) b h =
    let w = frac_bits tag in
    let u = up (m * 2 ^ w) k in
    let a = (2 * 2 ^ w - u) % (2 * 2 ^ w) in
    let (fits, same) = chose_no (dec_lt (2 ^ w) u) a b (sym (floor_neg tag m k) ∙ h) in
    subst (IsFloor w (finite true m k)) same (
      IsFloor-negative w m k u (omega arith) ((up_iff u (m * 2 ^ w) k).0 (omega arith))
        (λ c. (up_iff c (m * 2 ^ w) k).1))
convert_down-IsFloor tag (infinite s) b h = cc
convert_down-IsFloor tag nan b h = cc

-- If `convert_up` gives a number, it is the least fixed-point number of its type that is at
-- least the argument.
pub convert_up-IsCeil :
    (tag : FixedTypeTag) (x : Float) (b : ℕ) → convert_up tag x ≡ ok b → IsCeil (frac_bits tag) x b
unfolding convert_up
convert_up-IsCeil tag (finite false m k) b h =
    let w = frac_bits tag in
    let u = up (m * 2 ^ w) k in
    let (small, same) = chose_yes (dec_lt u (2 ^ w)) u b (sym (ceil_pos tag m k) ∙ h) in
    subst (IsCeil w (finite false m k)) same (
      IsCeil-positive w m k u small ((up_iff u (m * 2 ^ w) k).0 (omega arith))
        (λ c. (up_iff c (m * 2 ^ w) k).1))
convert_up-IsCeil tag (finite true m k) b h =
    let w = frac_bits tag in
    let t = down (m * 2 ^ w) k in
    let a = (2 * 2 ^ w - t) % (2 * 2 ^ w) in
    let (fits, same) = chose_no (dec_lt (2 ^ w) t) a b (sym (ceil_neg tag m k) ∙ h) in
    subst (IsCeil w (finite true m k)) same (
      IsCeil-negative w m k t (omega arith) ((down_iff t (m * 2 ^ w) k).0 (omega arith))
        (λ c. (down_iff c (m * 2 ^ w) k).1))
convert_up-IsCeil tag (infinite s) b h = cc
convert_up-IsCeil tag nan b h = cc

-- Where a test accepts.
pub accepts_yes :
    {P : Type 0} (d : Dec P) (a : ℕ) → (is_ok (ite d (ok a) (err not_an_integer)) ≡ true) ↔ P
accepts_yes (yes p) a = (λ h. p, λ h. refl)
accepts_yes (no n) a = (λ h. absurd (cc), λ h. absurd (n h))

pub accepts_no :
    {P : Type 0} (d : Dec P) (a : ℕ) → (is_ok (ite d (err not_an_integer) (ok a)) ≡ true) ↔ (¬ P)
accepts_no (yes p) a = (λ h. absurd (cc), λ h. absurd (h p))
accepts_no (no n) a = (λ h. n, λ h. refl)

-- `convert_down` accepts exactly the numbers from -1 on and below 1.
pub convert_down_iff :
    (tag : FixedTypeTag) (x : Float)
    → (is_ok (convert_down tag x) ≡ true)
      ↔ (IsLe (finite true 1 0) x × (¬ IsLe (finite false 1 0) x))
unfolding convert_down
convert_down_iff tag (finite false m k) =
    let w = frac_bits tag in
    let t = down (m * 2 ^ w) k in
    let d = down_iff (2 ^ w) (m * 2 ^ w) k in
    let c = times_cancel (2 ^ k) m w in
    let swap : 2 ^ w * 2 ^ k ≡ 2 ^ k * 2 ^ w = mul_comm (2 ^ w) (2 ^ k) in
    rw (floor_pos tag m k) (
      λ h.
          let small = (accepts_yes (dec_lt t (2 ^ w)) t).0 h in
          (tt, λ one. absurd (omega (arith, d.1 (omega (arith, c.1 (omega (arith, one)), swap))))),
      λ h. (accepts_yes (dec_lt t (2 ^ w)) t).1 (elim (dec_lt t (2 ^ w)) [
        | yes p ↦ p
        | no p ↦ absurd (h.1 (omega (arith, c.0 (omega (arith, d.0 (omega arith), swap)))))
      ]),
    )
convert_down_iff tag (finite true m k) =
    let w = frac_bits tag in
    let u = up (m * 2 ^ w) k in
    let d = up_iff (2 ^ w) (m * 2 ^ w) k in
    let c = times_cancel m (2 ^ k) w in
    let swap : 2 ^ w * 2 ^ k ≡ 2 ^ k * 2 ^ w = mul_comm (2 ^ w) (2 ^ k) in
    rw (floor_neg tag m k) (
      λ h.
          let fits = (accepts_no (dec_lt (2 ^ w) u) ((2 * 2 ^ w - u) % (2 * 2 ^ w))).0 h in
          (omega (arith, c.0 (omega (arith, d.0 (omega arith), swap))), λ e. omega (arith, e.0)),
      λ h.
          (accepts_no (dec_lt (2 ^ w) u) ((2 * 2 ^ w - u) % (2 * 2 ^ w))).1
            (λ p. omega (arith, d.1 (omega (arith, c.1 (omega (arith, h.0)), swap)))),
    )
convert_down_iff tag (infinite s) = (λ h. absurd (cc), λ h. absurd h.0)
convert_down_iff tag nan = (λ h. absurd (cc), λ h. absurd h.0)
