-- ===== src/External/Numbers.antt =====
-- The numbers of src/core/fixed.rs that other crates define: floating-point numbers through
-- num_traits::Float and NumCast, and fixed-point numbers through fixed::traits::Fixed. An integer of
-- `Fx::Bits` is its bit pattern. What is assumed of them is in `Core/Fixed/Laws`.
use dpsa4fl.Base.{ℕ, Option}
use dpsa4fl.Core.Tag.{FixedTypeTag}

pub record Numbers : Type 1 where
  -- num_traits::Float: the product, the conversion of a `u64`, and the two roundings
  pub Fl : Type 0
  pub mul : Fl → Fl → Fl
  pub from : ℕ → Option Fl
  pub floor : Fl → Fl
  pub ceil : Fl → Fl
  -- fixed::traits::Fixed, at `Fixed16` and `Fixed32`
  pub Fx : FixedTypeTag → Type 0
  pub frac_nbits : FixedTypeTag → ℕ
  pub int_nbits : FixedTypeTag → ℕ
  pub from_bits : (tag : FixedTypeTag) → ℕ → Fx tag
  -- `<Fx::Bits as NumCast>::from`
  pub num_cast : FixedTypeTag → Fl → Option ℕ
