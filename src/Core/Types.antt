-- ===== src/Core/Types.antt =====
-- The locations and the vdaf parameter of src/core/types.rs, with their derived equality.
use dpsa4fl.Base.{ℕ, ℕ_discrete, List, [], ◌∷◌}
use dpsa4fl.Core.Tag.{FixedTypeTag, fixed_type_16_bit, fixed_type_32_bit, FixedTypeTag-discrete}
use dpsa4fl.External.{Janus}

module _ (J : Janus) where
  open J use {
    Url, url_discrete, ZCdpBudget, budget_discrete, BitSize, bit_size_16, bit_size_32, VdafInstance,
    prio3_fixed_point_bounded_l2_vec_sum, from_budget,
  }

  pub record MainLocations : Type 0 where
    pub external_leader : Url
    pub external_helper : Url

  pub record ManagerLocations : Type 0 where
    pub external_leader : Url
    pub external_helper : Url

  pub record Locations : Type 0 where
    pub main : MainLocations
    pub manager : ManagerLocations

  -- `Locations::get_external_aggregator_endpoints`
  unfoldable pub get_external_aggregator_endpoints : Locations → List Url
  get_external_aggregator_endpoints l = l.main.external_leader ∷ l.main.external_helper ∷ []

  pub record VdafParameter : Type 0 where
    pub gradient_len : ℕ
    pub privacy_parameter : ZCdpBudget
    pub submission_type : FixedTypeTag

  -- the derived `PartialEq` instances
  pub MainLocations-discrete : Discrete MainLocations
  MainLocations-discrete = hlevel url_discrete

  pub VdafParameter-discrete : Discrete VdafParameter
  VdafParameter-discrete = hlevel (ℕ_discrete, budget_discrete, FixedTypeTag-discrete)

  abbrev bit_size : FixedTypeTag → BitSize
  bit_size fixed_type_16_bit = bit_size_16
  bit_size fixed_type_32_bit = bit_size_32

  -- `VdafParameter::to_vdaf_instance`
  unfoldable pub to_vdaf_instance : VdafParameter → VdafInstance
  to_vdaf_instance p =
      prio3_fixed_point_bounded_l2_vec_sum p.gradient_len (bit_size p.submission_type)
        (from_budget p.privacy_parameter)

  pub record CommonStateParametrization : Type 0 where
    pub location : Locations
    pub vdaf_parameter : VdafParameter
