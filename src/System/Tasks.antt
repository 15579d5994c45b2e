-- ===== src/System/Tasks.antt =====
-- The two tasks of a round, as they stand in the datastores of the aggregators.
use dpsa4fl.Base.{ℕ, ◌≡◌, ◌≢◌, ◌∙◌, sym, subst, inl, inr, arith, none, some, ok, if_pos, if_neg}
use dpsa4fl.External.{Janus}
use dpsa4fl.External.Laws.{IsCodec, IsDatastore}
use dpsa4fl.Manager.Messages.{Ambient}
use dpsa4fl.Manager.Provisioner.State.{TrainingSession, TaskProvisioner, session_of}
use dpsa4fl.Manager.Provisioner.Handlers.{handle_start_round, task_parameters, task_of}
use dpsa4fl.Manager.Provisioner.Start.{Prepared-id, handle_start_round-Starts, started}
use dpsa4fl.Manager.Network.{Network}
use dpsa4fl.Manager.Consumer.{JanusManagerClient, create_session, start_round, draw_verify_key}
use dpsa4fl.System.World.{
  leader_party, helper_party, found_at, next, World, Deployment, deployed, LeadsTo,
}
use dpsa4fl.System.Rely.{Spared, spared_at}
use dpsa4fl.System.Create.{create_session_agrees, SameSession}
use dpsa4fl.System.Round.{asks, start_round-BothStarted}

module _ (J : Janus) (d : Deployment J) (services : Network J (World J)) where
  -- The task that a provisioner makes in a session is in a datastore under its id.
  pub record HoldsTask (t : J.TaskId) (s s' : TaskProvisioner J) (v : TrainingSession J)
      (params : J.AggregatorTaskParameters) : Type 0 where
    pub task : J.AggregatorTask
    pub made : task_of J s v t params ≡ some task
    pub stored : J.get_aggregator_task t s'.datastore ≡ some (some task)

  -- A start in a session whose parameters are known, with a task id that is new to the datastore.
  handled-HoldsTask :
      IsCodec J
      → IsDatastore J
      → (a : Ambient J) (sid : ℕ) (t : J.TaskId) (s s' : TaskProvisioner J)
      → (v : TrainingSession J) (params : J.AggregatorTaskParameters) → session_of J sid s ≡ some v
      → task_parameters J v ≡ some params
      → J.get_aggregator_task t s.datastore ≡ some none
      → handle_start_round J a (asks J d services sid t) s ≡ (ok tt, s')
      → HoldsTask t s s' v params
  handled-HoldsTask codec L a sid t s s' v params found known fresh h =
      let q = asks J d services sid t in
      elim (handle_start_round-Starts J L.tx a q s) [
        | inr (same, failed) ↦ ground arith
        | inl (p, store, e, posted) ↦
            let ids : p.task_id ≡ t = cc (
              codec.decode-encode (J.get_encoded t),
              codec.decoded-encoded t,
              p.decoded,
              p.parsed,
            ) in
            let own : J.id p.task ≡ t = cc (Prepared-id J L a q s p, ids) in
            let sessions : p.session ≡ v = cc (p.found, found) in
            let same_params : p.params ≡ params = cc (p.role, known, sessions) in
            let state : started J a q s p store ≡ s' = cc in
            elim posted [
              | inl (existing, at, same, kept) ↦ absurd (cc)
              | inr (unused, put) ↦ record {
                task = p.task;
                made = cc (p.made, ids, sessions, same_params);
                stored = rw (← state, ← own) (L.get-put_self p.task s.datastore store put);
              }
            ]
      ]

  -- The parameters of a task by role.
  abbrev pub of_leader : TrainingSession J → J.AggregatorTaskParameters
  of_leader v =
      J.leader_parameters v.leader_auth_token (J.hash_token v.collector_auth_token)
        v.collector_hpke_config

  abbrev pub of_helper : TrainingSession J → J.AggregatorTaskParameters
  of_helper v = J.helper_parameters (J.hash_token v.leader_auth_token) v.collector_hpke_config

  leader_params :
      (v : TrainingSession J) → v.role ≡ J.leader → task_parameters J v ≡ some (of_leader v)
  unfolding task_parameters
  leader_params v e = if_pos (J.role_discrete v.role J.leader) e _ _

  helper_params :
      (v : TrainingSession J)
      → J.helper ≢ J.leader
      → v.role ≡ J.helper
      → task_parameters J v ≡ some (of_helper v)
  unfolding task_parameters
  helper_params v differ e =
      if_neg (J.role_discrete v.role J.leader) (λ l. differ (sym e ∙ l)) _ _
      ∙ if_pos (J.role_discrete v.role J.helper) e _ _

  -- Where the addresses of the managers lead to them, base64 and task ids decode to what was encoded,
  -- a datastore finds what was put into it by transactions that commit or roll back, and the two roles
  -- differ: once the controller has created a session and started a round in it, with a task id that
  -- is new to both datastores, the leader's datastore holds a leader's task and the helper's a helper's
  -- task under this id, each made from its session. The two sessions have the drawn verify key, and
  -- the vdaf parameter and the collector configuration of the client, and the same two tokens: the
  -- collector token is read back from the bytes of the client's, and the leader token is made from
  -- the base64 text of the client's.
  -- The network may lose messages, and both managers may serve any requests of others before each
  -- exchange, if none creates or ends this session or starts a round in it after its creation.
  pub round_tasks_match :
      IsCodec J
      → IsDatastore J
      → J.helper ≢ J.leader
      → (c : JanusManagerClient J) → LeadsTo J d c.location.manager.external_leader leader_party
      → LeadsTo J d c.location.manager.external_helper helper_party
      → (a b : Ambient J) (w w1 w2 : World J) (sid : ℕ) (t : J.TaskId)
      → create_session J (deployed J d services) c a w ≡ (ok sid, w1)
      → Spared J d services sid w1
      → J.get_aggregator_task b.task_id (found_at J d leader_party w1).datastore ≡ some none
      → J.get_aggregator_task b.task_id (found_at J d helper_party (next J w1)).datastore
        ≡ some none
      → start_round J (deployed J d services) c b sid w1 ≡ (ok t, w2)
      → (lead : TrainingSession J) × (help : TrainingSession J) × SameSession J d services c
          (draw_verify_key J (deployed J d services) c a)
          lead
          help
        × HoldsTask t (found_at J d leader_party w1) w2.leader lead (of_leader lead)
        × HoldsTask t (found_at J d helper_party (next J w1)) w2.helper help (of_helper help)
  round_tasks_match codec L differ c to_leader to_helper a b w w1 w2 sid t made (spare, spare') new
        new' begun =
      let (lead, help, lead_at, help_at, unused, same) =
        create_session_agrees J d services codec c to_leader to_helper a w w1 sid made in
      let (drawn, both) =
        start_round-BothStarted J d services c to_leader to_helper b sid w1 w2 t begun in
      let s = found_at J d leader_party w1 in
      let s' = found_at J d helper_party (next J w1) in
      let l =
        handled-HoldsTask codec L (w1.ambient w1.tick) sid b.task_id s w2.leader lead
          (of_leader lead) (spared_at J d services leader_party sid w1 spare ∙ lead_at)
          (leader_params lead same.lead_role) new both.leader in
      let h =
        handled-HoldsTask codec L both.draws sid b.task_id s' w2.helper help (of_helper help)
          (spared_at J d services helper_party sid (next J w1) spare' ∙ help_at)
          (helper_params help differ same.help_role) new' both.helper in
      (
        lead,
        help,
        same,
        subst (λ x. HoldsTask x s w2.leader lead (of_leader lead)) drawn l,
        subst (λ x. HoldsTask x s' w2.helper help (of_helper help)) drawn h,
      )
