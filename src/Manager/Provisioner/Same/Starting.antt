-- ===== src/Manager/Provisioner/Same/Starting.antt =====
-- The start of a round at provisioners that hold the same.
use dpsa4fl.Base.{
  task_error, todo, clock_error, codec_error, base64_error, no_session, ℕ, ◌≡◌, ◌∙◌, refl, sym, inl,
  inr, arith, List, some, Outcome, ok, err, panic, push, Option-cases,
}
use dpsa4fl.External.{Janus}
use dpsa4fl.Manager.Messages.{Ambient, StartRoundRequest}
use dpsa4fl.Manager.Provisioner.State.{TrainingSession, TaskProvisioner, session_of, insert_session}
use dpsa4fl.Manager.Provisioner.Provision.{provision_task}
use dpsa4fl.Manager.Provisioner.Handlers.{task_parameters, task_of, handle_start_round}
use dpsa4fl.Manager.Provisioner.Same.{Same, SameResult, both_are, insert_session-Same}

module _ (J : Janus) where
  open J use {decode_base64, get_decoded}

  module _ (a : Ambient J) (q : StartRoundRequest) (s t : TaskProvisioner J) (h : Same J s t) where
    abbrev IsSameStart : Type 0
    IsSameStart = SameResult J (handle_start_round J a q s) (handle_start_round J a q t)

    abbrev pushed :
        TrainingSession J → J.TaskId → J.Datastore → TaskProvisioner J → TaskProvisioner J
    pushed v id d s =
        insert_session J q.training_session_id (record v { tasks = push v.tasks id })
          (record s { datastore = d })

    provisioned-Same :
        (d : J.Datastore) → Same J (record s { datastore = d }) (record t { datastore = d })
    provisioned-Same d = record {
      datastore = refl;
      config = h.config;
      sessions = h.sessions;
      keys = h.keys;
    }

    task_of-Same :
        (v : TrainingSession J) (id : J.TaskId) (params : J.AggregatorTaskParameters)
        → task_of J t v id params ≡ task_of J s v id params
    unfolding task_of
    task_of-Same v id params = cc (h.config)

    -- The end of a start: the transaction, and on success the push.
    provisioning-Same :
        (v : TrainingSession J) (bytes : List ℕ) (id : J.TaskId) (n : ℕ)
        (params : J.AggregatorTaskParameters) (task : J.AggregatorTask)
        → session_of J q.training_session_id s ≡ some v
        → decode_base64 q.task_id_encoded ≡ some bytes
        → get_decoded bytes ≡ some id
        → a.elapsed ≡ some n
        → task_parameters J v ≡ some params
        → task_of J s v id params ≡ some task
        → IsSameStart
    unfolding handle_start_round
    provisioning-Same v bytes id n params task e e1 e2 e3 e4 e5 = by_result result.0 refl
      where
        result : Outcome (Unit {0}) × J.Datastore
        result = provision_task J task s.datastore

        e' : session_of J q.training_session_id t ≡ some v
        e' = sym (h.sessions q.training_session_id) ∙ e

        e5' : task_of J t v id params ≡ some task
        e5' = task_of-Same v id params ∙ e5

        by_result : (x : Outcome (Unit {0})) → result.0 ≡ x → IsSameStart
        by_result (ok u) r =
            both_are J (ok tt) (pushed v id result.1 s) (pushed v id result.1 t) (ground arith)
              (ground (arith, e', e5', h.datastore))
              (insert_session-Same J q.training_session_id (record v { tasks = push v.tasks id })
                (record s { datastore = result.1 }) (record t { datastore = result.1 })
                (provisioned-Same result.1))
        by_result (err x) r =
            both_are J (err x) (record s { datastore = result.1 })
              (record t { datastore = result.1 }) (ground arith)
              (ground (arith, e', e5', h.datastore)) (provisioned-Same result.1)
        by_result (panic x) r =
            both_are J (panic x) (record s { datastore = result.1 })
              (record t { datastore = result.1 }) (ground arith)
              (ground (arith, e', e5', h.datastore)) (provisioned-Same result.1)

    pub handle_start_round-Same : IsSameStart
    unfolding handle_start_round
    handle_start_round-Same =
        let sid = q.training_session_id in
        let same : session_of J sid s ≡ session_of J sid t = h.sessions sid in
        elim (Option-cases (session_of J sid s)) [
          | inl e ↦ both_are J (err (no_session sid)) s t (ground arith) (ground arith) h
          | inr (v, e) ↦ elim (Option-cases (decode_base64 q.task_id_encoded)) [
            | inl e1 ↦ both_are J (err base64_error) s t (ground arith) (ground arith) h
            | inr (bytes, e1) ↦ elim (Option-cases (get_decoded bytes)) [
              | inl e2 ↦ both_are J (err codec_error) s t (ground arith) (ground arith) h
              | inr (id, e2) ↦ elim (Option-cases a.elapsed) [
                | inl e3 ↦ both_are J (err clock_error) s t (ground arith) (ground arith) h
                | inr (n, e3) ↦ elim (Option-cases (task_parameters J v)) [
                  | inl e4 ↦ both_are J (panic todo) s t (ground arith) (ground arith) h
                  | inr (params, e4) ↦
                      let tasks = task_of-Same v id params in
                      elim (Option-cases (task_of J s v id params)) [
                        | inl e5 ↦
                            both_are J (err task_error) s t (ground arith) (ground (arith, tasks)) h
                        | inr (task, e5) ↦
                            provisioning-Same v bytes id n params task e e1 e2 e3 e4 e5
                      ]
                ]
              ]
            ]
          ]
        ]
