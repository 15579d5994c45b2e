-- ===== src/Manager/Provisioner/Machine.antt =====
-- Requests that run at the same time. `handle_start_round`, `handle_end_session` and the query hold
-- the lock on the sessions while they work, so each is one step, but a start may be cut off while it
-- waits for the datastore. `handle_create_session` gives the
-- lock back after it has tested the id, takes the keyring's lock, and takes the sessions' lock again
-- to insert; between these steps any other step may run.
use dpsa4fl.Base.{List, ◌∷◌, ◌++◌, ok, ◌≡◌}
use dpsa4fl.External.{Janus}
use dpsa4fl.Manager.Messages.{
  Ambient, TrainingSessionId, CreateTrainingSessionRequest, StartRoundRequest,
}
use dpsa4fl.Manager.Provisioner.State.{TrainingSession, TaskProvisioner, insert_session}
use dpsa4fl.Manager.Provisioner.Provision.{provision_task}
use dpsa4fl.Manager.Provisioner.Start.{Prepared}
use dpsa4fl.Manager.Provisioner.Handlers.{
  handle_start_round, handle_end_session, choose_id, build_session,
}

module _ (J : Janus) where
  -- A creation of a session that is under way: its id is chosen, or its session is built too.
  pub data Pending : Type 0 where
    chosen : Ambient J → CreateTrainingSessionRequest J → TrainingSessionId → Pending
    built : TrainingSessionId → TrainingSession J → Pending

  pub record Machine : Type 0 where
    pub provisioner : TaskProvisioner J
    pub pending : List Pending

  pub data Step (m : Machine) : Machine → Type 0 where
    start_round :
        (a : Ambient J) (q : StartRoundRequest)
        → Step m (record m { provisioner = (handle_start_round J a q m.provisioner).1 })
    -- a start whose client is gone once the task is provisioned, before the id is recorded
    abandon_start :
        (a : Ambient J) (q : StartRoundRequest) (p : Prepared J a q m.provisioner) (d : J.Datastore)
        → provision_task J p.task m.provisioner.datastore ≡ (ok tt, d)
        → Step m (record m { provisioner = record (m.provisioner) { datastore = d } })
    end_session :
        (sid : TrainingSessionId)
        → Step m (record m { provisioner = (handle_end_session J sid m.provisioner).1 })
    choose :
        (a : Ambient J) (q : CreateTrainingSessionRequest J) (sid : TrainingSessionId)
        → choose_id J a q.training_session_id m.provisioner ≡ (ok sid, m.provisioner)
        → Step m (record m { pending = chosen a q sid ∷ m.pending })
    build :
        (before after : List Pending) (a : Ambient J) (q : CreateTrainingSessionRequest J)
        (sid : TrainingSessionId) (session : TrainingSession J) (p : TaskProvisioner J)
        → m.pending ≡ before ++ (chosen a q sid ∷ after)
        → build_session J a q m.provisioner ≡ (ok session, p)
        → Step m (record { provisioner = p; pending = before ++ (built sid session ∷ after) })
    insert :
        (before after : List Pending) (sid : TrainingSessionId) (session : TrainingSession J)
        → m.pending ≡ before ++ (built sid session ∷ after)
        → Step m (record {
          provisioner = insert_session J sid session m.provisioner;
          pending = before ++ after;
        })
    -- a creation that fails, or whose client is gone
    drop :
        (before after : List Pending) (p : Pending)
        → m.pending ≡ before ++ (p ∷ after)
        → Step m (record m { pending = before ++ after })

  pub data Reach (m : Machine) : Machine → Type 0 where
    here : Reach m m
    next : {n o : Machine} → Reach m n → Step n o → Reach m o
