-- ===== src/Core/Fixed/Order.antt =====
-- The order of floating-point numbers, and the number that a bit pattern stands for.
use dpsa4fl.Base.{
  ℕ, suc, ◌+◌, ◌-◌, ◌*◌, ◌^◌, ◌≤◌, ◌<◌, ◌≡◌, ◌↔◌, true, false, ite, if_pos, if_neg, dec_lt, arith,
}
use dpsa4fl.Core.Fixed.Binary.{Float, finite, down, up}
use native.Mathlib.Nat.{le-div_iff_mul-le, div-lt_iff_lt-mul, one-le-pow}

-- The bit pattern `b` of `w + 1` bits as a number: `b / 2 ^ w`, below zero from `2 ^ w` on.
unfoldable pub value : ℕ → ℕ → Float
value w b = ite (dec_lt b (2 ^ w)) (finite false b w) (finite true (2 * 2 ^ w - b) w)

-- `x ≤ y`, by cross-multiplication. It says nothing of what is not finite.
abbrev pub IsLe : Float → Float → Type 0
IsLe (finite false m k) (finite false n j) = m * 2 ^ j ≤ n * 2 ^ k
IsLe (finite true m k) (finite true n j) = n * 2 ^ k ≤ m * 2 ^ j
IsLe (finite true m k) (finite false n j) = Unit
IsLe (finite false m k) (finite true n j) = (m ≡ 0) × (n ≡ 0)
IsLe _ _ = ⊥

-- The same number, whatever its representation.
abbrev pub IsSame : Float → Float → Type 0
IsSame x y = IsLe x y × IsLe y x

pub one_le_two-pow : (k : ℕ) → 1 ≤ 2 ^ k
one_le_two-pow k = one-le-pow k 2 (omega arith)

-- Rounding down and up, as adjoints of the multiplication.
pub down_iff : (c m k : ℕ) → (c ≤ down m k) ↔ (c * 2 ^ k ≤ m)
down_iff c m k = le-div_iff_mul-le (one_le_two-pow k)

-- The product at a successor, for a power of two.
suc-times : (c k : ℕ) → suc c * 2 ^ k ≡ c * 2 ^ k + 2 ^ k
suc-times c k = grind arith

pub up_iff : (c m k : ℕ) → (up m k ≤ c) ↔ (m ≤ c * 2 ^ k)
up_iff c m k =
    let e : (up m k < suc c) ↔ (m + (2 ^ k - 1) < suc c * 2 ^ k) =
      div-lt_iff_lt-mul (one_le_two-pow k) in
    (
      λ h. omega (arith, e.0 (omega (arith, h)), suc-times c k, one_le_two-pow k),
      λ h. omega (arith, e.1 (omega (arith, h, suc-times c k, one_le_two-pow k))),
    )

pub value_pos : (w b : ℕ) → b < 2 ^ w → value w b ≡ finite false b w
unfolding value
value_pos w b h = if_pos (dec_lt b (2 ^ w)) h _ _

pub value_neg : (w b : ℕ) → 2 ^ w ≤ b → value w b ≡ finite true (2 * 2 ^ w - b) w
unfolding value
value_neg w b h = if_neg (dec_lt b (2 ^ w)) (λ p. omega arith) _ _

pub times_mono : (a b w : ℕ) → a ≤ b → a * 2 ^ w ≤ b * 2 ^ w
times_mono a b w h = grind arith

pub times_cancel : (a b w : ℕ) → (a * 2 ^ w ≤ b * 2 ^ w) ↔ (a ≤ b)
times_cancel a b w = (
  λ h. elim (dec_lt b a) [
    | no p ↦ omega arith
    | yes p ↦
        omega (arith, times_mono (suc b) a w (omega arith), suc-times b w, one_le_two-pow w, h)
  ],
  times_mono a b w,
)
