-- ===== src/Manager/Server/Only.antt =====
-- Requests that leave a task to the one session that holds it.
use dpsa4fl.Base.{
  ℕ, ℕ_discrete, ◌≡◌, sym, subst, inl, inr, arith, some, ok, List, [], ◌∷◌, Option-cases, push,
}
use dpsa4fl.Base.HashMap
use dpsa4fl.External.{Janus}
use dpsa4fl.External.Laws.{IsTransactional}
use dpsa4fl.Manager.Messages.{Ambient, CreateTrainingSessionRequest, StartRoundRequest}
use dpsa4fl.Manager.Http.{Response, start_request}
use dpsa4fl.Manager.Provisioner.State.{TrainingSession, TaskProvisioner, session_of}
use dpsa4fl.Manager.Provisioner.Handlers.{handle_start_round, handle_end_session, build_session}
use dpsa4fl.Manager.Provisioner.Create.{build_session-Builds}
use dpsa4fl.Manager.Provisioner.Start.{handle_start_round-Starts}
use dpsa4fl.Manager.Provisioner.Query.{HeldOnlyBy}
use dpsa4fl.Manager.Provisioner.Machine.{Machine, Step, Reach}
use dpsa4fl.Manager.Provisioner.Gains.{IsStart, start_gains}
use dpsa4fl.Manager.Server.{Rejection, serve}
use dpsa4fl.Manager.Server.Steps.{Arrival, served, served-Reached}
use dpsa4fl.Manager.Server.Gains.{serve_gains}

module _ (J : Janus) where
  abbrev Unique : TaskProvisioner J → Type 0
  Unique s = HashMap.NodupKeys ℕ_discrete s.training_sessions

  -- No step stores an id twice.
  module _ (L : IsTransactional J) where
    start_round-Unique :
        (a : Ambient J) (q : StartRoundRequest) (s : TaskProvisioner J)
        → Unique s
        → Unique (handle_start_round J a q s).1
    start_round-Unique a q s u = elim (handle_start_round-Starts J L a q s) [
      | inr (same, failed) ↦ subst Unique (sym same) u
      | inl (p, d, e, posted) ↦ rw e (
          HashMap.insert-NodupKeys ℕ_discrete q.training_session_id
            (record (p.session) { tasks = push p.session.tasks p.task_id }) s.training_sessions u)
    ]

    end_session-Unique :
        (sid : ℕ) (s : TaskProvisioner J) → Unique s → Unique (handle_end_session J sid s).1
    unfolding handle_end_session
    end_session-Unique sid s u = elim (Option-cases (session_of J sid s)) [
      | inl e ↦ ground (arith, u)
      | inr (v, e) ↦ ground (arith, HashMap.remove-NodupKeys ℕ_discrete sid s.training_sessions u)
    ]

    build-Unique :
        (a : Ambient J) (q : CreateTrainingSessionRequest J) (s s' : TaskProvisioner J)
        (v : TrainingSession J)
        → build_session J a q s ≡ (ok v, s')
        → Unique s
        → Unique s'
    build-Unique a q s s' v h u = elim (build_session-Builds J a q s) [
      | inr (same, failed) ↦ cc
      | inl (p, e) ↦
          let left : record s { keyring = p.keyring } ≡ s' = cc (e, h) in subst Unique left u
    ]

    Step-Unique : {m n : Machine J} → Step J m n → Unique m.provisioner → Unique n.provisioner
    Step-Unique {m} (Step.start_round a q) u = start_round-Unique a q m.provisioner u
    Step-Unique {m} (Step.abandon_start a q p d e) u = u
    Step-Unique {m} (Step.end_session sid) u = end_session-Unique sid m.provisioner u
    Step-Unique {m} (Step.choose a q sid e) u = u
    Step-Unique {m} (Step.build before after a q sid v p e made) u =
        build-Unique a q m.provisioner p v made u
    Step-Unique {m} (Step.insert before after sid v e) u =
        HashMap.insert-NodupKeys ℕ_discrete sid v m.provisioner.training_sessions u
    Step-Unique {m} (Step.drop before after p e) u = u

    Reach-Unique : {m n : Machine J} → Reach J m n → Unique m.provisioner → Unique n.provisioner
    Reach-Unique Reach.here u = u
    Reach-Unique (Reach.next r st) u = Step-Unique st (Reach-Unique r u)

  module _ (sid : ℕ) (t : J.TaskId) where
    -- No other session holds the task, and no id is stored twice.
    pub record IsOnly (s : TaskProvisioner J) : Type 0 where
      pub nodup : Unique s
      pub only : HeldOnlyBy J t sid s.training_sessions

    -- None of the requests starts a round with the task's id in another session.
    abbrev pub NotElsewhere : List (Arrival J) → Type 0
    NotElsewhere [] = Unit
    NotElsewhere (r ∷ rs) =
        ((other : ℕ) (q : StartRoundRequest)
          → r.body ≡ some (start_request q)
          → IsStart J t other q
          → other ≡ sid)
        × NotElsewhere rs

    module _ (L : IsTransactional J) where
      -- A start in the session itself leaves the task to it.
      pub start_round-IsOnly :
          (a : Ambient J) (q : StartRoundRequest) (s : TaskProvisioner J)
          → q.training_session_id ≡ sid
          → IsOnly s
          → IsOnly (handle_start_round J a q s).1
      start_round-IsOnly a q s own h = record {
        nodup = start_round-Unique L a q s h.nodup;
        only = λ other v e has. elim (start_gains J t other L a q s (v, e, has)) [
          | inl (v0, e0, has0) ↦ h.only other v0 e0 has0
          | inr (asked, accepted) ↦ cc (asked.named, own)
        ];
      }

      -- And so do requests of others that start no round with its id elsewhere.
      pub served-IsOnly :
          (rejected : Rejection → Response J) (rs : List (Arrival J)) (s : TaskProvisioner J)
          → NotElsewhere rs
          → IsOnly s
          → IsOnly (served J rejected rs s)
      served-IsOnly rejected [] s n h = h
      served-IsOnly rejected (r ∷ rs) s (n, ns) h =
          let s' = (serve J rejected r.ambient r.method r.route r.body s).1 in
          served-IsOnly rejected rs s' ns (record {
            nodup =
                Reach-Unique L
                  (served-Reached J (record { provisioner = s; pending = [] }) [] rejected (r ∷ [])
                    s Reach.here)
                  h.nodup;
            only = λ other v e has. elim (serve_gains J t other rejected L r s (v, e, has)) [
              | inl (v0, e0, has0) ↦ h.only other v0 e0 has0
              | inr st ↦ n other st.request st.sent st.asked
            ];
          })
