-- ===== src/System/Rounds.antt =====
-- The rounds of a session, one after the other, and the task ids that they leave on both aggregators.
use dpsa4fl.Base.{
  append-nil, append_assoc, sym, ◌∙◌, subst, inl, inr, push, [], ◌∷◌, ◌++◌, List, ℕ, ◌≡◌, arith,
  some, ok,
}
use dpsa4fl.External.{Janus}
use dpsa4fl.External.Laws.{IsCodec, IsTransactional}
use dpsa4fl.Manager.Messages.{Ambient}
use dpsa4fl.Manager.Provisioner.State.{
  TrainingSession, TaskProvisioner, session_of, session_of-insert_session_self,
}
use dpsa4fl.Manager.Provisioner.Handlers.{handle_start_round}
use dpsa4fl.Manager.Provisioner.Start.{started, handle_start_round-Starts}
use dpsa4fl.Manager.Network.{Network}
use dpsa4fl.Manager.Consumer.{JanusManagerClient, create_session, start_round, draw_verify_key}
use dpsa4fl.System.World.{
  leader_party, helper_party, World, Deployment, found_at, next, deployed, LeadsTo,
}
use dpsa4fl.System.Rely.{Spared, spared_at}
use dpsa4fl.System.Create.{create_session_agrees, SameSession}
use dpsa4fl.System.Round.{asks, start_round-BothStarted}

module _ (J : Janus) (d : Deployment J) (services : Network J (World J)) where
  -- A start that was accepted has put the task at the end of the session's tasks.
  pub started_pushes :
      IsCodec J
      → IsTransactional J
      → (a : Ambient J) (sid : ℕ) (t : J.TaskId) (s s' : TaskProvisioner J) (v : TrainingSession J)
      → session_of J sid s ≡ some v
      → handle_start_round J a (asks J d services sid t) s ≡ (ok tt, s')
      → session_of J sid s' ≡ some (record v { tasks = push v.tasks t })
  started_pushes codec L a sid t s s' v found h =
      let q = asks J d services sid t in
      elim (handle_start_round-Starts J L a q s) [
        | inr (same, failed) ↦ ground arith
        | inl (p, store, e, posted) ↦
            let ids : p.task_id ≡ t = cc (
              codec.decode-encode (J.get_encoded t),
              codec.decoded-encoded t,
              p.decoded,
              p.parsed,
            ) in
            let sessions : p.session ≡ v = cc (p.found, found) in
            let state : started J a q s p store ≡ s' = cc in
            rw (← state, ← ids, ← sessions)
              (session_of-insert_session_self J sid
                (record (p.session) { tasks = push p.session.tasks p.task_id })
                (record s { datastore = store }))
      ]

  -- Rounds that the controller starts in a session, one after the other, with the task ids that it
  -- gets. No request of others that comes before an exchange creates or ends the session or starts a
  -- round in it.
  pub data Rounds (c : JanusManagerClient J) (sid : ℕ)
      : World J → List J.TaskId → World J → Type 0 where
    done : {w : World J} → Rounds c sid w [] w
    started_one :
        {w w1 w2 : World J} {t : J.TaskId} {ts : List J.TaskId} (a : Ambient J)
        → Spared J d services sid w
        → start_round J (deployed J d services) c a sid w ≡ (ok t, w1)
        → Rounds c sid w1 ts w2
        → Rounds c sid w (t ∷ ts) w2

  -- Two sessions on the managers, with the same tasks.
  abbrev pub BothHave : ℕ → TrainingSession J → TrainingSession J → List J.TaskId → World J → Type 0
  BothHave sid lead help ts w =
      (session_of J sid w.leader ≡ some (record lead { tasks = ts }))
      × (session_of J sid w.helper ≡ some (record help { tasks = ts }))

  start_round-BothHave :
      IsCodec J
      → IsTransactional J
      → (c : JanusManagerClient J) → LeadsTo J d c.location.manager.external_leader leader_party
      → LeadsTo J d c.location.manager.external_helper helper_party
      → (a : Ambient J) (sid : ℕ) (w w1 : World J) (t : J.TaskId) → Spared J d services sid w
      → start_round J (deployed J d services) c a sid w ≡ (ok t, w1)
      → (lead help : TrainingSession J) (ts : List J.TaskId) → BothHave sid lead help ts w
      → BothHave sid lead help (push ts t) w1
  start_round-BothHave codec L c to_leader to_helper a sid w w1 t (spare, spare') begun lead help ts
        (l, h) =
      let (drawn, both) =
        start_round-BothStarted J d services c to_leader to_helper a sid w w1 t begun in
      subst (λ x. BothHave sid lead help (push ts x) w1) drawn
        (
          started_pushes codec L (w.ambient w.tick) sid a.task_id (found_at J d leader_party w)
              w1.leader (record lead { tasks = ts })
              (spared_at J d services leader_party sid w spare ∙ l) both.leader,
          started_pushes codec L both.draws sid a.task_id (found_at J d helper_party (next J w))
              w1.helper (record help { tasks = ts })
              (spared_at J d services helper_party sid (next J w) spare' ∙ h) both.helper,
        )

  Rounds-BothHave :
      IsCodec J
      → IsTransactional J
      → (c : JanusManagerClient J) → LeadsTo J d c.location.manager.external_leader leader_party
      → LeadsTo J d c.location.manager.external_helper helper_party
      → (sid : ℕ) (w w' : World J) (ts : List J.TaskId) → Rounds c sid w ts w'
      → (lead help : TrainingSession J) (us : List J.TaskId) → BothHave sid lead help us w
      → BothHave sid lead help (us ++ ts) w'
  Rounds-BothHave codec L c to_leader to_helper sid w w' _ done lead help us have =
      subst (λ x. BothHave sid lead help x w) (sym (append-nil us)) have
  Rounds-BothHave codec L c to_leader to_helper sid w w' _
        (started_one {w1} {t} {ts} a spare begun rest) lead help us have =
      subst (λ x. BothHave sid lead help x w') (append_assoc us (t ∷ []) ts)
        (Rounds-BothHave codec L c to_leader to_helper sid w1 w' ts rest lead help (push us t) (
          start_round-BothHave codec L c to_leader to_helper a sid w w1 t spare begun lead help us
            have))

  -- Where the addresses of the managers lead to them, base64 and task ids decode to what was encoded,
  -- and transactions commit or roll back: the controller has created a session and has then called
  -- `start_round` in it any number of times, and each of these calls has returned an id, so that no
  -- start failed in between. Then both managers hold under the session's id a session whose tasks are
  -- just these ids, in that order; apart from the tasks, the sessions are as they were created: they
  -- have the drawn verify key, the client's vdaf parameter and collector configuration, and the same
  -- two tokens. The network may lose messages before the creation, and both managers may serve any
  -- requests of others before each exchange, if none creates or ends this session or starts a round
  -- in it after its creation.
  pub recorded_tasks :
      IsCodec J
      → IsTransactional J
      → (c : JanusManagerClient J) → LeadsTo J d c.location.manager.external_leader leader_party
      → LeadsTo J d c.location.manager.external_helper helper_party
      → (a : Ambient J) (w w1 w2 : World J) (sid : ℕ) (ts : List J.TaskId)
      → create_session J (deployed J d services) c a w ≡ (ok sid, w1)
      → Rounds c sid w1 ts w2
      → (lead : TrainingSession J) × (help : TrainingSession J) × SameSession J d services c
          (draw_verify_key J (deployed J d services) c a)
          lead
          help
        × BothHave sid lead help ts w2
  recorded_tasks codec L c to_leader to_helper a w w1 w2 sid ts made rounds =
      let (lead, help, lead_at, help_at, unused, same) =
        create_session_agrees J d services codec c to_leader to_helper a w w1 sid made in
      (
        lead,
        help,
        same,
        Rounds-BothHave codec L c to_leader to_helper sid w1 w2 ts rounds lead help [] (
          subst (λ x. session_of J sid w1.leader ≡ some (record lead { tasks = x })) same.no_tasks.0
              lead_at,
          subst (λ x. session_of J sid w1.helper ≡ some (record help { tasks = x })) same.no_tasks.1
              help_at,
        ),
      )
