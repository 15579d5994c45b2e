-- ===== src/Base/Tests.antt =====
-- Tests on decisions, and the splits that keep the equation of a computed value.
use mathlib.Core.Path.{◌≡◌, refl, ap}
use mathlib.Core.Logic.{◌⊎◌, inl, inr, ite, dite}
use mathlib.Core.Bool.{Bool, true, false}
use mathlib.Core.Option.{Option, none, some, none-ne-some, some-ne-none, some-injective}

infix 1 if◌then◌else◌
abbrev pub if◌then◌else◌ {ℓ} : {A : Type ℓ} → Bool → A → A → A
if true then x else y = x
if false then x else y = y

-- The Boolean of a decision, as `==` computes it.
abbrev pub test {ℓ} : {P : Type ℓ} → Dec P → Bool
test d = ite d true false

pub Bool-cases : (b : Bool) → (b ≡ true) ⊎ (b ≡ false)
Bool-cases true = inl refl
Bool-cases false = inr refl

pub Option-cases {ℓ} : {A : Type ℓ} (o : Option A) → (o ≡ none) ⊎ ((a : A) × (o ≡ some a))
Option-cases none = inl refl
Option-cases (some a) = inr (a, refl)

-- Equality of optional values, from that of the values.
unfoldable pub option_discrete {ℓ} : {A : Type ℓ} → Discrete A → Discrete (Option A)
option_discrete dec none none = yes refl
option_discrete dec none (some b) = no (none-ne-some b)
option_discrete dec (some a) none = no (some-ne-none a)
option_discrete dec (some a) (some b) =
    dite (dec a b) (λ p. yes (ap some p)) (λ n. no (λ p. n (some-injective a b p)))
