-- ===== src/Base/Lists.antt =====
-- Lists measured by native numbers, membership tests and texts as bytes.
use Prim.Native.Nat.{ℕ, suc}
use Prim.Native.Char.{code}
use Prim.Native.String.{String}
use mathlib.Core.Path.{◌≡◌}
use mathlib.Core.Logic.{ite}
use mathlib.Core.Bool.{Bool, true, false, ◌||◌}
use mathlib.Core.List.{List, [], ◌∷◌, ◌++◌}
use native.Mathlib.Omega.{arith}

module _ {ℓ} {A : Type ℓ} where
  abbrev pub length : List A → ℕ
  length [] = 0
  length (x ∷ xs) = suc (length xs)

  -- `Vec::push`.
  abbrev pub push : List A → A → List A
  push xs x = xs ++ x ∷ []

  -- `Vec::contains`, from a decision of equality.
  abbrev pub contains : Discrete A → List A → A → Bool
  contains dec [] a = false
  contains dec (x ∷ xs) a = ite (dec a x) true false || contains dec xs a

  pub contains-push_self :
      (dec : Discrete A) (xs : List A) (a : A) → contains dec (push xs a) a ≡ true
  contains-push_self dec [] a = ground arith
  contains-push_self dec (x ∷ xs) a = ground (arith, contains-push_self dec xs a)

  pub contains-push :
      (dec : Discrete A) (xs : List A) (a b : A)
      → contains dec (push xs a) b ≡ (contains dec xs b || ite (dec b a) true false)
  contains-push dec [] a b = ground arith
  contains-push dec (x ∷ xs) a b = ground (arith, contains-push dec xs a b)

-- A text is the list of its UTF-8 bytes, as Rust's `String` is; so `into_bytes` is the identity.
abbrev pub Text : Type 0
Text = List ℕ

-- The bytes of an ASCII literal.
abbrev pub text : String → Text
text String.[] = []
text (String.◌∷◌ c s) = code c ∷ text s
