-- ===== src/Manager/Provisioner/Handlers.antt =====
-- The four handlers of `TaskProvisioner`. A handler that holds the lock on the sessions from its
-- first to its last step is one action; `handle_create_session` takes the lock twice, and is the
-- composition of the steps between (see `Race`).
use dpsa4fl.Base.{
  Option, none, some, List, [], ◌∷◌, push, contains, Action, ok_or, fail, pure, gets, modify,
  unwrap, ◌>>=◌, ◌>>◌, no_session, session_exists, no_session_to_remove, no_task, many_sessions,
  base64_error, base64_context, codec_error, token_error, clock_error, task_error, todo,
  if◌then◌else◌, ite,
}
use dpsa4fl.External.{Janus}
use dpsa4fl.Core.Types.{VdafParameter, to_vdaf_instance}
use dpsa4fl.Manager.Messages.{
  TrainingSessionId, time_precision, Ambient, random_u16, CreateTrainingSessionRequest,
  StartRoundRequest, GetVdafParameterRequest,
}
use dpsa4fl.Manager.Keyring.{get_random_keypair}
use dpsa4fl.Manager.Provisioner.State.{
  TrainingSession, TaskProvisioner, Sessions, session_of, insert_session, remove_session,
  on_datastore, on_keyring,
}
use dpsa4fl.Manager.Provisioner.Provision.{provision_task}

module _ (J : Janus) where
  open J use {
    TaskId, task_id_discrete, task_id_text, get_decoded, decode_base64, role_discrete, leader,
    helper, AggregatorTask, AggregatorTaskParameters, leader_parameters, helper_parameters,
    hash_token, new_aggregator_task, time_interval, duration_from_seconds, new_secret_bytes,
    new_bearer_token_from_bytes, HpkeKeypair,
  }

  -- The parameters of the task by the role of the session; `none` is the `todo!()`.
  unfoldable pub task_parameters : TrainingSession J → Option AggregatorTaskParameters
  task_parameters s =
      ite (role_discrete s.role leader)
        (some (
          leader_parameters s.leader_auth_token (hash_token s.collector_auth_token)
            s.collector_hpke_config))
        (ite (role_discrete s.role helper)
          (some (helper_parameters (hash_token s.leader_auth_token) s.collector_hpke_config)) none)

  -- The call of `AggregatorTask::new`.
  unfoldable pub task_of :
      TaskProvisioner J
      → TrainingSession J
      → TaskId
      → AggregatorTaskParameters
      → Option AggregatorTask
  unfolding to_vdaf_instance
  task_of p s task_id params =
      new_aggregator_task task_id p.config.helper_endpoint time_interval
        (to_vdaf_instance J s.vdaf_parameter) s.verify_key 10 none none 2
        (duration_from_seconds time_precision) (duration_from_seconds 1000)
        (s.hpke_config_and_key ∷ []) params

  -- `handle_start_round`. The deadline that it computes from the clock is not used; what counts is
  -- that it fails on a clock that stands before the epoch.
  unfoldable pub handle_start_round :
      Ambient J → StartRoundRequest → Action (TaskProvisioner J) (Unit {0})
  unfolding task_parameters
  handle_start_round a request = do
    let sid = request.training_session_id
    session ← ok_or (← gets (session_of J sid)) (no_session sid)
    task_id_bytes ← ok_or (decode_base64 request.task_id_encoded) base64_error
    task_id ← ok_or (get_decoded task_id_bytes) codec_error
    seconds ← ok_or a.elapsed clock_error
    params ← unwrap (task_parameters session) todo
    task ← ok_or (← gets λ p. task_of p session task_id params) task_error
    on_datastore J (provision_task J task)
    modify (insert_session J sid (record session { tasks = push session.tasks task_id }))

  -- The id of a new session: the requested one if it is free, else a random one.
  unfoldable pub choose_id :
      Ambient J → Option TrainingSessionId → Action (TaskProvisioner J) TrainingSessionId
  choose_id a none s = pure (random_u16 J a) s
  choose_id a (some sid) s = elim (session_of J sid s) [
    | some old ↦ fail (session_exists sid) s
    | none ↦ pure sid s
  ]

  -- The session of a request, with a key pair from the keyring.
  unfoldable pub build_session :
      Ambient J → CreateTrainingSessionRequest J → Action (TaskProvisioner J) (TrainingSession J)
  build_session a request = do
    collector_bytes ← ok_or (decode_base64 request.collector_auth_token_encoded) base64_context
    collector_token ← ok_or (new_bearer_token_from_bytes collector_bytes) token_error
    leader_token ← ok_or (new_bearer_token_from_bytes request.leader_auth_token_encoded) token_error
    verify_key ← ok_or (decode_base64 request.verify_key_encoded) base64_context
    keypair ← on_keyring J (get_random_keypair J a)
    pure (record {
      role = request.role;
      collector_hpke_config = request.collector_hpke_config;
      verify_key = new_secret_bytes verify_key;
      collector_auth_token = collector_token;
      leader_auth_token = leader_token;
      hpke_config_and_key = keypair;
      vdaf_parameter = request.vdaf_parameter;
      tasks = [];
    })

  -- `handle_create_session`
  unfoldable pub handle_create_session :
      Ambient J → CreateTrainingSessionRequest J → Action (TaskProvisioner J) TrainingSessionId
  handle_create_session a request = do
    sid ← choose_id a request.training_session_id
    session ← build_session a request
    modify (insert_session J sid session)
    pure sid

  -- `handle_end_session`
  unfoldable pub handle_end_session : TrainingSessionId → Action (TaskProvisioner J) (Unit {0})
  handle_end_session sid s = elim (session_of J sid s) [
    | some removed ↦ pure tt (remove_session J sid s)
    | none ↦ fail (no_session_to_remove sid) s
  ]

  -- The sessions among whose tasks is the given one: `values().filter(..).collect()`.
  unfoldable pub sessions_with_id : TaskId → Sessions J → List (TrainingSession J)
  sessions_with_id t [] = []
  sessions_with_id t ((sid, v) ∷ m) =
      let rest = sessions_with_id t m in
      if contains task_id_discrete v.tasks t then v ∷ rest else rest

  unfoldable pub only_session :
      TaskId → List (TrainingSession J) → Action (TaskProvisioner J) (TrainingSession J)
  only_session t [] = fail (no_task (task_id_text t))
  only_session t (v ∷ []) = pure v
  only_session t (v ∷ w ∷ vs) = fail (many_sessions (task_id_text t))

  -- `handle_get_vdaf_parameter`
  unfoldable pub handle_get_vdaf_parameter :
      GetVdafParameterRequest → Action (TaskProvisioner J) (VdafParameter J)
  unfolding sessions_with_id only_session
  handle_get_vdaf_parameter request = do
    task_id_bytes ← ok_or (decode_base64 request.task_id_encoded) base64_error
    task_id ← ok_or (get_decoded task_id_bytes) codec_error
    found ← gets λ s. sessions_with_id task_id s.training_sessions
    session ← only_session task_id found
    pure session.vdaf_parameter
