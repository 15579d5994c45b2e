-- ===== src/Examples/Orders.antt =====
-- Two orders of one hash map, two orders of requests, and the conversion of numbers.
use dpsa4fl.Base.{
  ℕ, dec_lt, ℕ_discrete, ◌≡◌, ◌↔◌, ◌^◌, ◌+◌, ◌-◌, refl, arith, [], ◌∷◌, some, ok, err, true, false,
  is_ok, not_an_integer,
}
use dpsa4fl.Base.HashMap
use dpsa4fl.Core.Tag.{fixed_type_16_bit, fixed_type_32_bit}
use dpsa4fl.Core.Fixed.{float_to_fixed_floor, float_to_fixed_ceil}
use dpsa4fl.Core.Fixed.Binary.{Float, finite, truncate, round_down, round_up}
use dpsa4fl.Core.Fixed.Order.{value, IsLe, IsSame}
use dpsa4fl.Core.Fixed.Rounding.{IsFloor, IsCeil}
use dpsa4fl.Core.Fixed.Conversions.{
  float_to_fixed_floor-IsFloor, float_to_fixed_ceil-IsCeil, float_to_fixed_iff,
  float_to_fixed-value,
}
use dpsa4fl.Core.Fixed.Sample.{binary, binary-IsFloating}
use mathlib.Core.Quot
use dpsa4fl.Manager.Server.Abstract.{stepped, run, ending, run_ending}
use dpsa4fl.Examples.Races.{two_arrivals}
use dpsa4fl.Examples.Data.{draws, settings, session_with, plain_answer, ask_42, start_42}
use dpsa4fl.External.Sample.{sample}
use dpsa4fl.Manager.Http.{post_method, Route, vdaf_request, start_request, session_id}
use dpsa4fl.Manager.Server.{serve}
use dpsa4fl.Manager.Provisioner.State.{TaskProvisioner}
use dpsa4fl.Manager.Provisioner.Same.{Same, SameResult}
use dpsa4fl.Manager.Provisioner.Same.Serving.{serve-Same}
use dpsa4fl.Manager.Provisioner.Swap.Order.{Swaps, end_session-Swaps}

abbrev one_order : TaskProvisioner sample
one_order = record {
  datastore = [];
  training_sessions = (1, session_with (42 ∷ [])) ∷ (2, session_with []) ∷ [];
  config = settings;
  keyring = record { keypairs = [] };
}

abbrev other_order : TaskProvisioner sample
other_order = record one_order {
  training_sessions = (2, session_with []) ∷ (1, session_with (42 ∷ [])) ∷ [];
}

orders-Same : Same sample one_order other_order
unfolding HashMap.get
orders-Same = record {
  datastore = refl;
  config = refl;
  sessions = λ sid. ground arith;
  keys = λ id. refl;
}

serve-Same_example :
    SameResult sample
      (serve sample plain_answer draws post_method
        (some Route.get_vdaf_parameter)
        (some (vdaf_request ask_42))
        one_order)
      (serve sample plain_answer draws post_method
        (some Route.get_vdaf_parameter)
        (some (vdaf_request ask_42))
        other_order)
unfolding HashMap.get ℕ_discrete
serve-Same_example =
    serve-Same sample plain_answer draws post_method (some Route.get_vdaf_parameter)
      (some (vdaf_request ask_42)) one_order other_order orders-Same (refl, (refl, tt))
      (refl, (refl, tt))

end_session-Swaps_example :
    Swaps sample
      (serve sample plain_answer draws post_method
        (some Route.start_round)
        (some (start_request (start_42 2))))
      (serve sample plain_answer draws post_method (some Route.end_session) (some (session_id 1)))
      one_order
end_session-Swaps_example =
    end_session-Swaps sample plain_answer 1 draws draws post_method (some Route.start_round)
      (some (start_request (start_42 2))) one_order (λ e. cc) (λ e. cc)

run_ending_example :
    stepped sample plain_answer
      (ending sample plain_answer draws 1)
      (run sample plain_answer two_arrivals (Quot.mk one_order))
    ≡ run sample plain_answer two_arrivals
        (stepped sample plain_answer (ending sample plain_answer draws 1) (Quot.mk one_order))
run_ending_example =
    run_ending sample plain_answer two_arrivals draws 1 (Quot.mk one_order)
      (λ e. ground arith, (λ e. ground arith, tt))

-- The tests of src/core/fixed.rs: 2 ^ -15, 2 ^ -16, 2 ^ -15 + 2 ^ -16 + 2 ^ -17 + 2 ^ -18, 2 ^ -31,
-- and one half.
floor_1 : float_to_fixed_floor binary fixed_type_16_bit (finite false 1 15) ≡ ok 1
unfolding float_to_fixed_floor truncate round_down dec_lt
floor_1 = refl

floor_2 : float_to_fixed_floor binary fixed_type_16_bit (finite false 1 16) ≡ ok 0
unfolding float_to_fixed_floor truncate round_down dec_lt
floor_2 = refl

floor_3 : float_to_fixed_floor binary fixed_type_16_bit (finite false 15 18) ≡ ok 1
unfolding float_to_fixed_floor truncate round_down dec_lt
floor_3 = refl

floor_4 : float_to_fixed_floor binary fixed_type_32_bit (finite false 1 31) ≡ ok 1
unfolding float_to_fixed_floor truncate round_down dec_lt
floor_4 = refl

floor_5 : float_to_fixed_floor binary fixed_type_32_bit (finite false 1 1) ≡ ok 1073741824
unfolding float_to_fixed_floor truncate round_down dec_lt
floor_5 = refl

ceil_1 : float_to_fixed_ceil binary fixed_type_16_bit (finite false 1 15) ≡ ok 1
unfolding float_to_fixed_ceil truncate round_up dec_lt
ceil_1 = refl

ceil_2 : float_to_fixed_ceil binary fixed_type_16_bit (finite false 1 16) ≡ ok 1
unfolding float_to_fixed_ceil truncate round_up dec_lt
ceil_2 = refl

-- 2 ^ -15 + 2 ^ -20
ceil_3 : float_to_fixed_ceil binary fixed_type_16_bit (finite false 33 20) ≡ ok 2
unfolding float_to_fixed_ceil truncate round_up dec_lt
ceil_3 = refl

-- A negative number, -2 ^ -16, and the ends of the range.
floor_below_zero : float_to_fixed_floor binary fixed_type_16_bit (finite true 1 16) ≡ ok 65535
unfolding float_to_fixed_floor truncate round_down dec_lt
floor_below_zero = refl

floor_one : float_to_fixed_floor binary fixed_type_16_bit (finite false 1 0) ≡ err not_an_integer
unfolding float_to_fixed_floor truncate round_down dec_lt
floor_one = refl

floor_minus_one : float_to_fixed_floor binary fixed_type_16_bit (finite true 1 0) ≡ ok 32768
unfolding float_to_fixed_floor truncate round_down dec_lt
floor_minus_one = refl

float_to_fixed_floor-IsFloor_example : (b : ℕ) × (65535 ≡ b) × IsFloor 15 (finite true 1 16) b
float_to_fixed_floor-IsFloor_example =
    float_to_fixed_floor-IsFloor binary binary-IsFloating fixed_type_16_bit (finite true 1 16) 65535
      floor_below_zero

float_to_fixed_ceil-IsCeil_example : (b : ℕ) × (2 ≡ b) × IsCeil 15 (finite false 33 20) b
float_to_fixed_ceil-IsCeil_example =
    float_to_fixed_ceil-IsCeil binary binary-IsFloating fixed_type_16_bit (finite false 33 20) 2
      ceil_3

-- A number below -1 that is rounded up to it, and refused by the other conversion.
float_to_fixed_iff_example :
    ((is_ok (float_to_fixed_floor binary fixed_type_16_bit (finite true 65537 16)) ≡ true) ↔ (
      IsLe (finite true 1 0) (finite true 65537 16)
      × (¬ IsLe (finite false 1 0) (finite true 65537 16))))
    × ((is_ok (float_to_fixed_ceil binary fixed_type_16_bit (finite true 65537 16)) ≡ true) ↔ (
        IsLe (finite true 65537 16) (finite false (2 ^ 15 - 1) 15)
        × (¬ IsLe (finite true 65537 16) (finite true (2 ^ 15 + 1) 15))))
float_to_fixed_iff_example =
    float_to_fixed_iff binary binary-IsFloating fixed_type_16_bit (finite true 65537 16)

-- One half in multiples of 2 ^ -149, the smallest unit of `f32`.
abbrev half : Float
half = finite false (2 ^ 148) 149

half-IsSame : IsSame half (value 15 16384)
unfolding value dec_lt
half-IsSame = (omega arith, omega arith)

float_to_fixed-value_example :
    (float_to_fixed_floor binary fixed_type_16_bit half ≡ ok 16384)
    × (float_to_fixed_ceil binary fixed_type_16_bit half ≡ ok 16384)
float_to_fixed-value_example =
    float_to_fixed-value binary binary-IsFloating fixed_type_16_bit half 16384 (omega arith)
      half-IsSame
