-- ===== src/Controller.antt =====
-- The controller (src/controller/interface): its state, and the calls of its API.
pub mod Session
pub mod Calls
pub mod Collection
use dpsa4fl.Base.{
  ℕ, Option, none, some, Outcome, ok, err, panic, Text, Action, pure, fail, gets, modify, ok_or,
  ◌>>=◌, ◌>>◌, no_session_to_end, no_session_created, no_task_available,
}
use dpsa4fl.External.{Janus}
use dpsa4fl.Core.Types.{CommonStateParametrization}
use dpsa4fl.Manager.Messages.{TrainingSessionId, Ambient}
use dpsa4fl.Manager.Network.{Network}
use dpsa4fl.Manager.Consumer.{
  JanusManagerClient, new_client, create_session, end_session, start_round, collect,
}

module _ (J : Janus) where
  pub record ControllerStatePermanent : Type 0 where
    pub janus_tasks_client : JanusManagerClient J

  pub record ControllerStateRound : Type 0 where
    pub task_id : Option J.TaskId
    pub training_session_id : Option TrainingSessionId

  pub record ControllerStateImmut : Type 0 where
    pub parametrization : CommonStateParametrization J
    pub permanent : ControllerStatePermanent

  pub record ControllerStateMut : Type 0 where
    pub round : ControllerStateRound

  -- `ControllerStateImmut::new`, with the tokens that it draws; a panic if no key pair can be made.
  unfoldable pub new_controller_state :
      Ambient J
      → J.AuthenticationToken
      → J.AuthenticationToken
      → CommonStateParametrization J
      → Outcome ControllerStateImmut
  unfolding new_client
  new_controller_state a leader_token collector_token p =
      elim (new_client J a leader_token collector_token p.location p.vdaf_parameter) [
        | ok c ↦ ok (record { parametrization = p; permanent = record { janus_tasks_client = c } })
        | err e ↦ err e
        | panic x ↦ panic x
      ]

  unfoldable pub api_new_controller_state :
      Ambient J
      → J.AuthenticationToken
      → J.AuthenticationToken
      → CommonStateParametrization J
      → Outcome ControllerStateImmut
  unfolding new_controller_state
  api_new_controller_state a leader_token collector_token p =
      new_controller_state a leader_token collector_token p

  module _ {W : Type 0} (net : Network J W) where
    -- The controller's mutable state and the world that its calls reach.
    pub record Running : Type 0 where
      pub mstate : ControllerStateMut
      pub world : W

    -- A call of the manager client.
    abbrev pub on_world : {A : Type 0} → Action W A → Action Running A
    on_world m s = let (r, w) = m s.world in (r, record s { world = w })

    abbrev pub set_session : Option TrainingSessionId → Running → Running
    set_session sid s = record s {
      mstate = record { round = record (s.mstate.round) { training_session_id = sid } };
    }

    abbrev pub set_task : Option J.TaskId → Running → Running
    set_task t s = record s { mstate = record { round = record (s.mstate.round) { task_id = t } } }

    module _ (i : ControllerStateImmut) where
      unfoldable pub api_create_session : Ambient J → Action Running ℕ
      api_create_session a = do
        sid ← on_world (create_session J net i.permanent.janus_tasks_client a)
        modify (set_session (some sid))
        pure sid

      unfoldable pub api_end_session : Action Running (Unit {0})
      api_end_session s = elim s.mstate.round.training_session_id [
        | some sid ↦
            (on_world (end_session J net i.permanent.janus_tasks_client sid)
                >> modify (set_session none))
              s
        | none ↦ fail no_session_to_end s
      ]

      unfoldable pub api_start_round : Ambient J → Action Running Text
      api_start_round a = do
        sid ← ok_or (← gets λ s. s.mstate.round.training_session_id) no_session_created
        task_id ← on_world (start_round J net i.permanent.janus_tasks_client a sid)
        modify (set_task (some task_id))
        pure (J.task_id_text task_id)

      unfoldable pub api_collect : Ambient J → Action Running net.Collection
      api_collect a = do
        task_id ← ok_or (← gets λ s. s.mstate.round.task_id) no_task_available
        on_world (collect J net i.permanent.janus_tasks_client a task_id)
