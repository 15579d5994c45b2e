-- ===== src/Manager/Consumer/Queries.antt =====
-- The query of a collection (`collect_generic` of src/janus_manager/interface/network/consumer.rs):
-- its interval, and what it needs of the leader's address.
use dpsa4fl.Core.Tag.{FixedTypeTag}
use dpsa4fl.Base.{inr, inl, Option-cases, none, false, is_ok, ◌<◌, ◌≤◌, ◌+◌, ◌%◌, ℕ, ◌≡◌, arith}
use dpsa4fl.External.{Janus}
use dpsa4fl.Manager.Messages.{Ambient}
use dpsa4fl.Manager.Network.{Network}
use dpsa4fl.Manager.Consumer.{JanusManagerClient, query_start, query_duration, collect_generic}

module _ (J : Janus) {W : Type 0} (net : Network J W) (c : JanusManagerClient J) where
  -- From the sixth hour of the epoch on, and as long as the clock fits 64 bits, the interval that a
  -- collection asks for starts on a multiple of the time precision, more than four and at most six
  -- precisions before the clock, and lasts until more than nine precisions after the clock: the
  -- wrapping subtraction does not wrap.
  pub query_covers_now :
      (seconds : ℕ)
      → 18000 ≤ seconds
      → seconds < 18446744073709551616
      → let start = query_start J net c seconds in
        (start % 3600 ≡ 0)
        × (start + 18000 ≤ seconds)
        × (seconds < start + 21600)
        × (seconds + 32400 < start + query_duration J net c)
  unfolding query_start
  query_covers_now seconds late fits = (omega arith, omega arith, omega arith, omega arith)

  -- If the leader's address has no explicit port, a collection fails before it uses the network,
  -- whatever else is in order.
  pub collect_portless :
      (a : Ambient J) (tag : FixedTypeTag) (t : J.TaskId) (w : W)
      → J.port c.location.main.external_leader ≡ none
      → (is_ok (collect_generic J net c a tag t w).0 ≡ false)
        × ((collect_generic J net c a tag t w).1 ≡ w)
  unfolding collect_generic
  collect_portless a tag t w portless =
      elim (Option-cases (J.new_fixedpoint_boundedl2_vec_sum tag 2 c.vdaf_parameter.gradient_len)) [
        | inl e ↦ ground arith
        | inr (vdaf, e) ↦
            elim (Option-cases (
              net.new_collector tag t c.location.main.external_leader c.collector_auth_token
                c.hpke_keypair vdaf)) [
                  | inl e' ↦ ground arith
                  | inr (collector, e') ↦ elim (Option-cases a.elapsed) [
                    | inl e'' ↦ ground arith
                    | inr (start, e'') ↦
                        elim (Option-cases (J.host c.location.main.external_leader)) [
                          | inl e3 ↦ ground arith
                          | inr (name, e3) ↦ ground arith
                        ]
                  ]
                ]
      ]
