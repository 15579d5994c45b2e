-- ===== src/Manager/Provisioner/Start.antt =====
-- What `handle_start_round` does, on every branch.
use dpsa4fl.Base.{
  is_ok, false, ℕ, List, ◌≡◌, refl, ◌⊎◌, inl, inr, arith, some, ok, err, Error, push, Option-cases,
}
use dpsa4fl.External.{Janus}
use dpsa4fl.External.Laws.{IsDatastore, IsTransactional}
use dpsa4fl.Manager.Messages.{Ambient, StartRoundRequest}
use dpsa4fl.Manager.Provisioner.State.{TrainingSession, TaskProvisioner, session_of, insert_session}
use dpsa4fl.Manager.Provisioner.Provision.{provision_task}
use dpsa4fl.Manager.Provisioner.Provisioned.{Posted, provision_task-Provisions}
use dpsa4fl.Manager.Provisioner.Handlers.{task_parameters, task_of, handle_start_round}

module _ (J : Janus) where
  open J use {
    TaskId, Datastore, AggregatorTask, AggregatorTaskParameters, decode_base64, get_decoded,
  }

  -- All that must hold for a start of a round to reach the datastore.
  pub record Prepared (a : Ambient J) (q : StartRoundRequest) (s : TaskProvisioner J) : Type 0 where
    pub session : TrainingSession J
    pub bytes : List ℕ
    pub task_id : TaskId
    pub seconds : ℕ
    pub params : AggregatorTaskParameters
    pub task : AggregatorTask
    pub found : session_of J q.training_session_id s ≡ some session
    pub decoded : decode_base64 q.task_id_encoded ≡ some bytes
    pub parsed : get_decoded bytes ≡ some task_id
    pub clock : a.elapsed ≡ some seconds
    pub role : task_parameters J session ≡ some params
    pub made : task_of J s session task_id params ≡ some task

  -- The state after a round has been started, with the datastore that the transaction left.
  abbrev pub started :
      (a : Ambient J) (q : StartRoundRequest) (s : TaskProvisioner J)
      → Prepared a q s
      → Datastore
      → TaskProvisioner J
  started a q s p d =
      insert_session J q.training_session_id
        (record (p.session) { tasks = push p.session.tasks p.task_id }) (record s { datastore = d })

  abbrev IsPrepared : (a : Ambient J) (q : StartRoundRequest) (s : TaskProvisioner J) → Type 0
  IsPrepared a q s =
      Prepared a q s
      ⊎ (((handle_start_round J a q s).1 ≡ s) × (is_ok (handle_start_round J a q s).0 ≡ false))

  prepared : (a : Ambient J) (q : StartRoundRequest) (s : TaskProvisioner J) → IsPrepared a q s
  unfolding handle_start_round
  prepared a q s = elim (Option-cases (session_of J q.training_session_id s)) [
    | inl e ↦ inr (rw e (refl, refl))
    | inr (session, found) ↦ elim (Option-cases (decode_base64 q.task_id_encoded)) [
      | inl e ↦ inr (ground arith)
      | inr (bytes, decoded) ↦ elim (Option-cases (get_decoded bytes)) [
        | inl e ↦ inr (ground arith)
        | inr (t, parsed) ↦ elim (Option-cases a.elapsed) [
          | inl e ↦ inr (ground arith)
          | inr (n, clock) ↦ elim (Option-cases (task_parameters J session)) [
            | inl e ↦ inr (ground arith)
            | inr (params, role) ↦ elim (Option-cases (task_of J s session t params)) [
              | inl e ↦ inr (ground arith)
              | inr (task, made) ↦ inl (record {
                session = session;
                bytes = bytes;
                task_id = t;
                seconds = n;
                params = params;
                task = task;
                found = found;
                decoded = decoded;
                parsed = parsed;
                clock = clock;
                role = role;
                made = made;
              })
            ]
          ]
        ]
      ]
    ]
  ]

  -- A prepared start is the call of `provision_task`, and on success the push of the task.
  Prepared-succeeds :
      (a : Ambient J) (q : StartRoundRequest) (s : TaskProvisioner J) (p : Prepared a q s)
      → (d : Datastore) → provision_task J p.task s.datastore ≡ (ok tt, d)
      → handle_start_round J a q s ≡ (ok tt, started a q s p d)
  unfolding handle_start_round
  Prepared-succeeds a q s p d h = ground arith

  Prepared-fails :
      (a : Ambient J) (q : StartRoundRequest) (s : TaskProvisioner J) (p : Prepared a q s)
      → (e : Error) → provision_task J p.task s.datastore ≡ (err e, s.datastore)
      → handle_start_round J a q s ≡ (err e, s)
  unfolding handle_start_round
  Prepared-fails a q s p e h = ground arith

  -- How a start of a round ends: with everything prepared, the task provisioned and pushed at the
  -- end of its session; or without success and with nothing changed.
  abbrev pub Starts : Ambient J → StartRoundRequest → TaskProvisioner J → Type 0
  Starts a q s =
      ((p : Prepared a q s) × (d : Datastore) × (handle_start_round J a q s
          ≡ (ok tt, started a q s p d))
        × Posted J p.task s.datastore d)
      ⊎ (((handle_start_round J a q s).1 ≡ s) × (is_ok (handle_start_round J a q s).0 ≡ false))

  -- Under transactions that commit or roll back, `handle_start_round` either succeeds, having
  -- found the session and decoded the task id, provisioned the task made from them and pushed the
  -- id at the end of that session's tasks; or it fails and changes nothing at all.
  pub handle_start_round-Starts :
      IsTransactional J
      → (a : Ambient J) (q : StartRoundRequest) (s : TaskProvisioner J) → Starts a q s
  handle_start_round-Starts L a q s = elim (prepared a q s) [
    | inr failed ↦ inr failed
    | inl p ↦ elim (provision_task-Provisions J L p.task s.datastore) [
      | inl (d, e, posted) ↦ inl (p, d, Prepared-succeeds a q s p d e, posted)
      | inr (e, h) ↦ inr (rw (Prepared-fails a q s p e h) (refl, refl))
    ]
  ]

  -- The task that a start makes has the id of the request.
  pub Prepared-id :
      IsDatastore J
      → (a : Ambient J) (q : StartRoundRequest) (s : TaskProvisioner J) (p : Prepared a q s)
      → J.id p.task ≡ p.task_id
  unfolding task_of
  Prepared-id L a q s p = L.id-new_aggregator_task p.task_id _ _ _ _ _ _ _ _ _ _ _ _ p.task p.made
