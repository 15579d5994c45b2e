-- ===== src/Controller/Session.antt =====
-- The controller's calls as moves of a small machine: which session and which task it remembers.
use dpsa4fl.Base.{
  none, ◌∙◌, ◌∷◌, [], List, ◌≡◌, refl, inl, inr, arith, some, Option-cases, Outcome-cases,
}
use dpsa4fl.External.{Janus}
use dpsa4fl.Manager.Messages.{Ambient, TrainingSessionId}
use dpsa4fl.Manager.Network.{Network}
use dpsa4fl.Manager.Consumer.{create_session, end_session}
use dpsa4fl.Controller.{
  ControllerStateImmut, ControllerStateRound, Running, api_create_session, api_end_session,
  api_start_round, api_collect,
}

module _ (J : Janus) where
  -- What the controller remembers, and the moves that its calls may make.
  pub data Move (r : ControllerStateRound J) : ControllerStateRound J → Type 0 where
    stay : Move r r
    created : (sid : TrainingSessionId) → Move r (record r { training_session_id = some sid })
    ended :
        (sid : TrainingSessionId)
        → r.training_session_id ≡ some sid
        → Move r (record r { training_session_id = none })
    started :
        (sid : TrainingSessionId) (t : J.TaskId)
        → r.training_session_id ≡ some sid
        → Move r (record r { task_id = some t })

  module _ {W : Type 0} (net : Network J W) (i : ControllerStateImmut J) where
    abbrev pub round : Running J net → ControllerStateRound J
    round s = s.mstate.round

    -- A call of the API, with what it draws.
    pub data Call : Type 0 where
      creates : Ambient J → Call
      starts : Ambient J → Call
      collects : Ambient J → Call
      ends : Call

    -- The state after a call, however it ended.
    unfoldable pub run : Call → Running J net → Running J net
    run (creates a) s = (api_create_session J net i a s).1
    run (starts a) s = (api_start_round J net i a s).1
    run (collects a) s = (api_collect J net i a s).1
    run ends s = (api_end_session J net i s).1

    unfoldable pub run_all : List Call → Running J net → Running J net
    run_all [] s = s
    run_all (c ∷ cs) s = run_all cs (run c s)

    abbrev IsStart : Call → Type 0
    IsStart (starts a) = Unit
    IsStart _ = ⊥

    creates_task :
        (a : Ambient J) (s : Running J net)
        → (round (run (creates a) s)).task_id ≡ (round s).task_id
    unfolding run api_create_session
    creates_task a s =
        elim (Outcome-cases (create_session J net i.permanent.janus_tasks_client a s.world).0) [
          | inr failed ↦ ground arith
          | inl (sid, e) ↦ ground arith
        ]

    collects_task :
        (a : Ambient J) (s : Running J net)
        → (round (run (collects a) s)).task_id ≡ (round s).task_id
    unfolding run api_collect
    collects_task a s = elim (Option-cases s.mstate.round.task_id) [
      | inl e ↦ ground arith
      | inr (t, e) ↦ ground arith
    ]

    ends_task : (s : Running J net) → (round (run ends s)).task_id ≡ (round s).task_id
    unfolding run api_end_session
    ends_task s = elim (Option-cases s.mstate.round.training_session_id) [
      | inl e ↦ ground arith
      | inr (sid, e) ↦
          elim (Outcome-cases (end_session J net i.permanent.janus_tasks_client sid s.world).0) [
            | inr failed ↦ ground arith
            | inl (done, e') ↦ ground arith
          ]
    ]

    -- A call that starts no round leaves the task alone.
    run_task :
        (c : Call) (s : Running J net) → ¬ IsStart c → (round (run c s)).task_id ≡ (round s).task_id
    run_task (creates a) s no_start = creates_task a s
    run_task (starts a) s no_start = elim (no_start tt) [ ]
    run_task (collects a) s no_start = collects_task a s
    run_task ends s no_start = ends_task s

    abbrev pub NoStart : List Call → Type 0
    NoStart [] = Unit
    NoStart (c ∷ cs) = (¬ IsStart c) × NoStart cs

    -- Nor do many.
    pub run_all_task :
        (cs : List Call) (s : Running J net)
        → NoStart cs
        → (round (run_all cs s)).task_id ≡ (round s).task_id
    unfolding run_all
    run_all_task [] s h = refl
    run_all_task (c ∷ cs) s h = run_all_task cs (run c s) h.1 ∙ run_task c s h.0
