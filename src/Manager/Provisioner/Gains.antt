-- ===== src/Manager/Provisioner/Gains.antt =====
-- Which handlers give a session a task.
use dpsa4fl.Base.{
  ℕ, ℕ_discrete, ◌≡◌, ◌∙◌, ◌⊎◌, refl, sym, ap, subst, inl, inr, arith, push, contains-push, some,
  ok, List, [],
}
use dpsa4fl.External.{Janus}
use dpsa4fl.External.Laws.{IsTransactional}
use dpsa4fl.Manager.Messages.{Ambient, CreateTrainingSessionRequest, StartRoundRequest}
use dpsa4fl.Manager.Provisioner.State.{
  TrainingSession, TaskProvisioner, session_of, insert_session, session_of-insert_session,
  session_of-insert_session_self,
}
use dpsa4fl.Manager.Provisioner.Handlers.{
  handle_create_session, handle_start_round, handle_end_session,
}
use dpsa4fl.Manager.Provisioner.Create.{made_session, handle_create_session-Creates}
use dpsa4fl.Manager.Provisioner.Start.{started, handle_start_round-Starts}
use dpsa4fl.Manager.Provisioner.Sessions.{handle_end_session_cases}
use dpsa4fl.Manager.Provisioner.Query.{HasTask}

module _ (J : Janus) (t : J.TaskId) (sid : ℕ) where
  -- The session holds the task.
  abbrev pub Holds : TaskProvisioner J → Type 0
  Holds s = (v : TrainingSession J) × (session_of J sid s ≡ some v) × HasTask J t v

  -- A request for a start of the task's round in the session.
  pub record IsStart (q : StartRoundRequest) : Type 0 where
    pub named : q.training_session_id ≡ sid
    pub bytes : List ℕ
    pub decoded : J.decode_base64 q.task_id_encoded ≡ some bytes
    pub parsed : J.get_decoded bytes ≡ some t

  -- A call that changes nothing gives no session a task.
  pub keeps : (s s' : TaskProvisioner J) → s' ≡ s → Holds s' → Holds s
  keeps s s' e h = subst Holds e h

  -- A session that is inserted without a task holds none.
  inserted_empty :
      (id : ℕ) (v : TrainingSession J) (s : TaskProvisioner J)
      → v.tasks ≡ []
      → Holds (insert_session J id v s)
      → Holds s
  inserted_empty id v s empty (w, at, has) = elim (ℕ_discrete sid id) [
    | yes same ↦ ground (arith, session_of-insert_session J sid id v s)
    | no other ↦ (w, ground (arith, session_of-insert_session J sid id v s), has)
  ]

  -- Neither a creation of a session nor an end gives a session a task.
  pub creation_gains :
      (a : Ambient J) (q : CreateTrainingSessionRequest J) (s : TaskProvisioner J)
      → Holds (handle_create_session J a q s).1
      → Holds s
  creation_gains a q s h = elim (handle_create_session-Creates J a q s) [
    | inr (same, failed) ↦ keeps s _ same h
    | inl (p, id, chosen, e) ↦
        inserted_empty id (made_session J a q s p) (record s { keyring = p.keyring }) refl
          (subst Holds (ap (λ x. x.1) e) h)
  ]

  pub end_gains : (id : ℕ) (s : TaskProvisioner J) → Holds (handle_end_session J id s).1 → Holds s
  end_gains id s (v, at, has) = elim (handle_end_session_cases J id s) [
    | inr (missing, refused, same) ↦ keeps s _ same (v, at, has)
    | inl (found, done, others, store, keys) ↦ elim (ℕ_discrete sid id) [
      | yes same ↦ ground (arith, others sid)
      | no other ↦ (v, ground (arith, others sid), has)
    ]
  ]

  -- A start does so for its own task and session only.
  pub start_gains :
      IsTransactional J
      → (a : Ambient J) (q : StartRoundRequest) (s : TaskProvisioner J)
      → Holds (handle_start_round J a q s).1
      → Holds s ⊎ (IsStart q × ((handle_start_round J a q s).0 ≡ ok tt))
  start_gains L a q s (v, at, has) = elim (handle_start_round-Starts J L a q s) [
    | inr (same, failed) ↦ inl (keeps s _ same (v, at, has))
    | inl (p, d, e, posted) ↦
        let v' : TrainingSession J = record (p.session) {
          tasks = push p.session.tasks p.task_id;
        } in
        let here : session_of J sid (started J a q s p d) ≡ some v =
          subst (λ x. session_of J sid x.1 ≡ some v) e at in
        elim (ℕ_discrete sid q.training_session_id) [
          | no other ↦ inl (
            v,
            ground (
              arith,
              here,
              session_of-insert_session J sid q.training_session_id v' (record s { datastore = d }),
            ),
            has,
          )
          | yes same ↦
              let mine : v ≡ v' = cc (
                here,
                same,
                session_of-insert_session_self J q.training_session_id v'
                    (record s { datastore = d }),
              ) in
              elim (J.task_id_discrete t p.task_id) [
                | yes asked ↦ inr (
                  record {
                    named = sym same;
                    bytes = p.bytes;
                    decoded = p.decoded;
                    parsed = p.parsed ∙ ap some (sym asked);
                  },
                  ap (λ x. x.0) e,
                )
                | no another ↦ inl (
                  p.session,
                  ap (λ x. session_of J x s) same ∙ p.found,
                  ground (
                    arith,
                    subst (HasTask J t) mine has,
                    contains-push J.task_id_discrete p.session.tasks p.task_id t,
                  ),
                )
              ]
        ]
  ]
