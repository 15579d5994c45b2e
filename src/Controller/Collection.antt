-- ===== src/Controller/Collection.antt =====
-- The collection of a round that the controller has started, over any network.
use dpsa4fl.Base.{Action, ℕ, ◌≡◌, ◌∙◌, refl, arith, List, some, ok, Text}
use dpsa4fl.External.{Janus}
use dpsa4fl.Core.Tag.{FixedTypeTag, fixed_type_16_bit, fixed_type_32_bit}
use dpsa4fl.Manager.Messages.{Ambient}
use dpsa4fl.Manager.Network.{Network}
use dpsa4fl.Manager.Consumer.{
  JanusManagerClient, collect, collect_generic, query_start, query_duration,
}
use dpsa4fl.Controller.{ControllerStateImmut, Running, api_start_round, api_collect}
use dpsa4fl.Controller.Calls.{start-StartCalled}
use dpsa4fl.Controller.Session.{round, Call, run_all, NoStart, run_all_task}

module _ (J : Janus) {W : Type 0} (net : Network J W) where
  -- A collection of which every part is at hand.
  generic_collects :
      (c : JanusManagerClient J) (b : Ambient J) (tag : FixedTypeTag) (t : J.TaskId) (w w' : W)
      (vdaf : J.Prio3 tag) (collector : net.Collector) (seconds port_number : ℕ) (host_name : Text)
      (interval : J.Interval) (collection : net.Collection)
      → J.new_fixedpoint_boundedl2_vec_sum tag 2 c.vdaf_parameter.gradient_len ≡ some vdaf
      → net.new_collector tag t c.location.main.external_leader c.collector_auth_token
          c.hpke_keypair vdaf
        ≡ some collector
      → b.elapsed ≡ some seconds
      → J.host c.location.main.external_leader ≡ some host_name
      → J.port c.location.main.external_leader ≡ some port_number
      → J.new_interval
          (J.time_from_seconds_since_epoch (query_start J net c seconds))
          (J.duration_from_seconds (query_duration J net c))
        ≡ some interval
      → net.collect collector interval w ≡ (some collection, w')
      → collect_generic J net c b tag t w ≡ (ok collection, w')
  unfolding collect_generic
  generic_collects c b tag t w w' vdaf collector seconds port_number host_name interval collection
        made built clock named numbered ranged taken =
      ground arith

  collect-generic :
      (c : JanusManagerClient J) (b : Ambient J) (t : J.TaskId) (w : W)
      → collect J net c b t w ≡ collect_generic J net c b c.vdaf_parameter.submission_type t w
  unfolding collect
  collect-generic c b t w = by_tag c.vdaf_parameter.submission_type
    where
      by_tag :
          (tag : FixedTypeTag)
          → (elim tag as (λ x. Action W net.Collection) [
            | fixed_type_16_bit ↦ collect_generic J net c b fixed_type_16_bit t
            | fixed_type_32_bit ↦ collect_generic J net c b fixed_type_32_bit t
          ])
              w
            ≡ collect_generic J net c b tag t w
      by_tag fixed_type_16_bit = refl
      by_tag fixed_type_32_bit = refl

  module _ (i : ControllerStateImmut J) where
    -- A controller that has started a round collects it: the text that `api_start_round` returned is
    -- that of the task id it drew, and after any calls but a further start, the end of the session
    -- included and whether they succeed or fail, `api_collect` asks for that task's collection, with
    -- the VDAF of the client's parameters, from the leader and over the interval of the query, and
    -- returns what the collector returns, provided that the VDAF and the collector can be made, that
    -- the clock and the leader's host and port can be read, that the interval can be built, and that
    -- the collector returns a collection.
    pub collect_started :
        (a b : Ambient J) (s s₁ : Running J net) (x : Text) (cs : List (Call J net i))
        (vdaf : J.Prio3 i.permanent.janus_tasks_client.vdaf_parameter.submission_type)
        (collector : net.Collector) (seconds port_number : ℕ) (host_name : Text)
        (interval : J.Interval) (collection : net.Collection) (w : W)
        → let c = i.permanent.janus_tasks_client in
          let tag = c.vdaf_parameter.submission_type in
          let s₂ = run_all J net i cs s₁ in
          api_start_round J net i a s ≡ (ok x, s₁)
          → NoStart J net i cs
          → J.new_fixedpoint_boundedl2_vec_sum tag 2 c.vdaf_parameter.gradient_len ≡ some vdaf
          → net.new_collector tag a.task_id c.location.main.external_leader c.collector_auth_token
              c.hpke_keypair vdaf
            ≡ some collector
          → b.elapsed ≡ some seconds
          → J.host c.location.main.external_leader ≡ some host_name
          → J.port c.location.main.external_leader ≡ some port_number
          → J.new_interval
              (J.time_from_seconds_since_epoch (query_start J net c seconds))
              (J.duration_from_seconds (query_duration J net c))
            ≡ some interval
          → net.collect collector interval s₂.world ≡ (some collection, w)
          → (x ≡ J.task_id_text a.task_id)
            × (api_collect J net i b s₂ ≡ (ok collection, record s₂ { world = w }))
    unfolding api_collect
    collect_started a b s s₁ x cs vdaf collector seconds port_number host_name interval collection w
          start no_start made built clock named numbered ranged taken =
        let c = i.permanent.janus_tasks_client in
        let s₂ = run_all J net i cs s₁ in
        let started = start-StartCalled J net i a s s₁ x start in
        let kept : (round J net i s₂).task_id ≡ some a.task_id =
          run_all_task J net i cs s₁ no_start ∙ started.task in
        let collected : collect J net c b a.task_id s₂.world ≡ (ok collection, w) =
          collect-generic c b a.task_id s₂.world
          ∙ generic_collects c b c.vdaf_parameter.submission_type a.task_id s₂.world w vdaf
              collector seconds port_number host_name interval collection made built clock named
              numbered ranged taken in
        (started.text, ground (arith, kept, collected))
