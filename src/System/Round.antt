-- ===== src/System/Round.antt =====
-- A started round, on both aggregators.
use dpsa4fl.Base.{ap, ◌∙◌, ℕ, ◌≡◌, subst, inl, inr, arith, some, ok, push}
use dpsa4fl.External.{Janus}
use dpsa4fl.External.Laws.{IsCodec, IsDatastore}
use dpsa4fl.Manager.Messages.{Ambient, StartRoundRequest}
use dpsa4fl.Manager.Provisioner.State.{
  TrainingSession, TaskProvisioner, session_of, session_of-insert_session_self,
}
use dpsa4fl.Manager.Provisioner.Handlers.{handle_start_round}
use dpsa4fl.Manager.Provisioner.Provisioned.{IsStored, Posted-IsStored}
use dpsa4fl.Manager.Provisioner.Start.{Prepared-id, started, handle_start_round-Starts}
use dpsa4fl.Manager.Http.{post_method, Route, Response, status_ok, start_request}
use dpsa4fl.Manager.Network.{Network}
use dpsa4fl.Manager.Server.{serve}
use dpsa4fl.Manager.Server.Answers.{endpoint-eq-ok}
use dpsa4fl.Manager.Consumer.{JanusManagerClient, post, start_round}
use dpsa4fl.System.World.{
  Party, leader_party, helper_party, World, Deployment, found_at, next, after, deployed, LeadsTo,
}
use dpsa4fl.System.Delivery.{post-Served}
use dpsa4fl.System.Both.{start_round-Both}

module _ (J : Janus) (d : Deployment J) (services : Network J (World J)) where
  abbrev pub asks : ℕ → J.TaskId → StartRoundRequest
  asks sid t = record {
    training_session_id = sid;
    task_id_encoded = J.encode_base64 (J.get_encoded t);
  }

  -- One provisioner before and after: the task is at the end of the session's tasks, and stored.
  pub record HasStarted (sid : ℕ) (t : J.TaskId) (s s' : TaskProvisioner J) : Type 0 where
    pub session : TrainingSession J
    pub found : session_of J sid s ≡ some session
    pub pushed : session_of J sid s' ≡ some (record session { tasks = push session.tasks t })
    pub stored : IsStored J t s'.datastore

  handled-HasStarted :
      IsCodec J
      → IsDatastore J
      → (a : Ambient J) (sid : ℕ) (t : J.TaskId) (s s' : TaskProvisioner J)
      → handle_start_round J a (asks sid t) s ≡ (ok tt, s')
      → HasStarted sid t s s'
  handled-HasStarted codec L a sid t s s' h =
      elim (handle_start_round-Starts J L.tx a (asks sid t) s) [
        | inr (same, failed) ↦ ground arith
        | inl (p, store, e, posted) ↦
            let ids : p.task_id ≡ t = cc (
              codec.decode-encode (J.get_encoded t),
              codec.decoded-encoded t,
              p.decoded,
              p.parsed,
            ) in
            let made : J.id p.task ≡ t = cc (Prepared-id J L a (asks sid t) s p, ids) in
            let state : started J a (asks sid t) s p store ≡ s' = cc in
            record {
              session = p.session;
              found = p.found;
              pushed =
                  rw (← state, ← ids)
                    (session_of-insert_session_self J sid
                      (record (p.session) { tasks = push p.session.tasks p.task_id })
                      (record s { datastore = store }));
              stored = rw (← state, ← made) (Posted-IsStored J L p.task s.datastore store posted);
            }
      ]

  serve_started :
      (a : Ambient J) (q : StartRoundRequest) (s s' : TaskProvisioner J) (r : Response J)
      → serve J d.rejected a post_method (some Route.start_round) (some (start_request q)) s
        ≡ (ok r, s')
      → r.status ≡ status_ok
      → handle_start_round J a q s ≡ (ok tt, s')
  unfolding serve
  serve_started a q s s' r h is_200 =
      let (done, ran, body) = endpoint-eq-ok J (handle_start_round J a q) _ s s' r h is_200 in ran

  -- A start that was answered with 200 was accepted by the party's handler.
  pub started_by :
      (p : Party) (base : J.Url)
      → LeadsTo J d base p
      → (sid : ℕ) (t : J.TaskId) (r : Response J) (w w' : World J)
      → post J (deployed J d services) base Route.start_round (start_request (asks sid t)) w
        ≡ (ok r, w')
      → r.status ≡ status_ok
      → (s' : TaskProvisioner J) × (handle_start_round J
            (w.ambient w.tick)
            (asks sid t)
            (found_at J d p w)
          ≡ (ok tt, s'))
        × (w' ≡ after J p s' w)
  started_by p base l sid t r w w' h is_200 =
      let sv =
        post-Served J d services base p l Route.start_round (start_request (asks sid t)) w w' r h in
      (
        sv.state,
        serve_started (w.ambient w.tick) (asks sid t) (found_at J d p w) sv.state r sv.run is_200,
        sv.world,
      )

  -- What both handlers did in a start that returned.
  pub record BothStarted (a : Ambient J) (sid : ℕ) (w w' : World J) : Type 0 where
    pub draws : Ambient J
    pub leader :
        handle_start_round J (w.ambient w.tick) (asks sid a.task_id) (found_at J d leader_party w)
        ≡ (ok tt, w'.leader)
    pub helper :
        handle_start_round J draws (asks sid a.task_id) (found_at J d helper_party (next J w))
        ≡ (ok tt, w'.helper)
    pub others : w'.others ≡ w.others

  pub start_round-BothStarted :
      (c : JanusManagerClient J)
      → LeadsTo J d c.location.manager.external_leader leader_party
      → LeadsTo J d c.location.manager.external_helper helper_party
      → (a : Ambient J) (sid : ℕ) (w w' : World J) (t : J.TaskId)
      → start_round J (deployed J d services) c a sid w ≡ (ok t, w')
      → (a.task_id ≡ t) × BothStarted a sid w w'
  start_round-BothStarted c to_leader to_helper a sid w w' t h =
      let (drawn, both) = start_round-Both J d services c a sid w w' t h in
      let b = both.between in
      let (l, lead, world) =
        started_by leader_party c.location.manager.external_leader to_leader sid a.task_id
          both.lead_answer w b both.lead_posted both.lead_ok in
      let (k, help, world') =
        started_by helper_party c.location.manager.external_helper to_helper sid a.task_id
          both.help_answer b w' both.help_posted both.help_ok in
      let leaders : l ≡ w'.leader = ground arith in
      let helpers : k ≡ w'.helper = ground arith in
      let before : found_at J d helper_party b ≡ found_at J d helper_party (next J w) =
        ap (found_at J d helper_party) world in
      (
        drawn,
        record {
          draws = b.ambient b.tick;
          leader = lead ∙ ap (λ (x : TaskProvisioner J). (ok tt, x)) leaders;
          helper =
              subst
                (λ x.
                  handle_start_round J (b.ambient b.tick) (asks sid a.task_id) x
                  ≡ (ok tt, w'.helper))
                before (help ∙ ap (λ (x : TaskProvisioner J). (ok tt, x)) helpers);
          others = ap (λ x. x.others) world' ∙ ap (λ x. x.others) world;
        },
      )

  -- Where the addresses of the managers lead to them, base64 and task ids decode to what was
  -- encoded, and a datastore finds what was put into it by transactions that commit or roll back:
  -- if `start_round` of the manager client returns a task id, over a network that may lose
  -- messages, with managers that may serve any requests of others before each exchange, then it is
  -- the id that the call drew, each aggregator held the session when it was asked, holds it now
  -- with this id added at the end of its tasks and nothing else changed in it, and has a task with
  -- this id in its datastore.
  pub start_round_agrees :
      IsCodec J
      → IsDatastore J
      → (c : JanusManagerClient J) → LeadsTo J d c.location.manager.external_leader leader_party
      → LeadsTo J d c.location.manager.external_helper helper_party
      → (a : Ambient J) (sid : ℕ) (w w' : World J) (t : J.TaskId)
      → start_round J (deployed J d services) c a sid w ≡ (ok t, w')
      → (a.task_id ≡ t)
        × HasStarted sid t (found_at J d leader_party w) w'.leader
        × HasStarted sid t (found_at J d helper_party (next J w)) w'.helper
  start_round_agrees codec L c to_leader to_helper a sid w w' t h =
      let (drawn, both) = start_round-BothStarted c to_leader to_helper a sid w w' t h in
      (
        drawn,
        subst (λ x. HasStarted sid x (found_at J d leader_party w) w'.leader) drawn
            (handled-HasStarted codec L (w.ambient w.tick) sid a.task_id
              (found_at J d leader_party w) w'.leader both.leader),
        subst (λ x. HasStarted sid x (found_at J d helper_party (next J w)) w'.helper) drawn
            (handled-HasStarted codec L both.draws sid a.task_id
              (found_at J d helper_party (next J w)) w'.helper both.helper),
      )
