-- ===== src/Core/Tag.antt =====
-- The type tags of src/core/fixed.rs, and vectors of fixed-point numbers by tag.
use dpsa4fl.Base.{ℕ, List}

pub data FixedTypeTag : Type 0 where
  fixed_type_16_bit : FixedTypeTag
  fixed_type_32_bit : FixedTypeTag

pub FixedTypeTag-discrete : Discrete FixedTypeTag
FixedTypeTag-discrete = hlevel

-- A fixed-point number is the bit pattern of its signed integer.
pub data FixedAny : Type 0 where
  fixed_16 : ℕ → FixedAny
  fixed_32 : ℕ → FixedAny

pub data VecFixedAny : Type 0 where
  vec_fixed_16 : List ℕ → VecFixedAny
  vec_fixed_32 : List ℕ → VecFixedAny

-- `IsTagInstance::get_tag` of the type of the elements.
abbrev pub get_tag : VecFixedAny → FixedTypeTag
get_tag (vec_fixed_16 v) = fixed_type_16_bit
get_tag (vec_fixed_32 v) = fixed_type_32_bit

abbrev pub elements : VecFixedAny → List ℕ
elements (vec_fixed_16 v) = v
elements (vec_fixed_32 v) = v
