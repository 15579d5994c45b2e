-- ===== src/Manager/Provisioner/StartedQuery.antt =====
-- The query for a task after the start of its round.
use dpsa4fl.Base.{
  ℕ, ℕ_discrete, ◌≡◌, refl, inl, inr, arith, List, some, ok, push, contains-push_self,
}
use dpsa4fl.Base.HashMap
use dpsa4fl.External.{Janus}
use dpsa4fl.External.Laws.{IsTransactional}
use dpsa4fl.Manager.Messages.{Ambient, StartRoundRequest}
use dpsa4fl.Manager.Provisioner.State.{
  TrainingSession, TaskProvisioner, session_of, insert_session, session_of-insert_session,
  session_of-insert_session_self,
}
use dpsa4fl.Manager.Provisioner.Handlers.{handle_start_round, handle_get_vdaf_parameter}
use dpsa4fl.Manager.Provisioner.Start.{started, handle_start_round-Starts}
use dpsa4fl.Manager.Provisioner.Query.{Unheld, Holder, handle_get_vdaf_parameter_iff}

module _ (J : Janus) where
  -- After a session has got a task that no session held, it is the only one to hold it.
  insert_session-Holder :
      (sid : ℕ) (t : J.TaskId) (v : TrainingSession J) (s : TaskProvisioner J)
      → Unheld J t s.training_sessions
      → let v' = record v { tasks = push v.tasks t } in
        Holder J t (insert_session J sid v' s).training_sessions v'
  insert_session-Holder sid t v s unheld =
      let v' : TrainingSession J = record v { tasks = push v.tasks t } in
      record {
        sid = sid;
        found = session_of-insert_session_self J sid v' s;
        has = contains-push_self J.task_id_discrete v.tasks t;
        only = λ other x e hx. elim (ℕ_discrete other sid) [
          | yes same ↦ same
          | no differs ↦
              let old : session_of J other s ≡ some x =
                ground (arith, session_of-insert_session J other sid v' s) in
              absurd (unheld other x old hx)
        ];
      }

  -- Under transactions that commit or roll back, on a map without repeated ids: a successful start of
  -- a round with a task id that no session held makes the query for that id
  -- answer with the vdaf parameter of the session of the request, and change nothing.
  pub start_round_queried :
      IsTransactional J
      → (a : Ambient J) (q : StartRoundRequest) (s s' : TaskProvisioner J)
      → (bytes : List ℕ) (t : J.TaskId) → J.decode_base64 q.task_id_encoded ≡ some bytes
      → J.get_decoded bytes ≡ some t
      → HashMap.NodupKeys ℕ_discrete s.training_sessions
      → Unheld J t s.training_sessions
      → handle_start_round J a q s ≡ (ok tt, s')
      → (v : TrainingSession J) × (session_of J q.training_session_id s ≡ some v)
        × (handle_get_vdaf_parameter J (record { task_id_encoded = q.task_id_encoded }) s'
            ≡ (ok v.vdaf_parameter, s'))
  start_round_queried L a q s s' bytes t decoded parsed nodup unheld h =
      elim (handle_start_round-Starts J L a q s) [
        | inr (same, failed) ↦ ground arith
        | inl (p, store, e, posted) ↦
            let ids : p.task_id ≡ t = cc (p.decoded, p.parsed) in
            let state : started J a q s p store ≡ s' = cc in
            let v' : TrainingSession J = record (p.session) {
              tasks = push p.session.tasks p.task_id;
            } in
            let held =
              insert_session-Holder q.training_session_id p.task_id p.session
                (record s { datastore = store }) (rw ids unheld) in
            (
              p.session,
              p.found,
              rw (← state) (
                  (handle_get_vdaf_parameter_iff J (record { task_id_encoded = q.task_id_encoded })
                      (started J a q s p store) bytes p.task_id decoded (rw ids parsed)
                      (HashMap.insert-NodupKeys ℕ_discrete q.training_session_id v'
                        s.training_sessions nodup)
                      p.session.vdaf_parameter).1
                    (v', held, refl)),
            )
      ]
