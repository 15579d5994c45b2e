-- ===== src/Client.antt =====
-- The client (src/client): its state, which is set up by the first round, and the submission of a
-- gradient.
pub mod Settings
pub mod Submission
use dpsa4fl.Base.{
  ℕ, ℕ_discrete, Bool, false, Option, none, some, Text, length, Outcome, ok, err, panic, Action,
  pure, fail, lift, ok_or, ◌>>=◌, ◌>>◌, ite, parameters_differ, wrong_length, wrong_type,
  not_initialized, vdaf_error, janus_client_error,
}
use dpsa4fl.External.{Janus}
use dpsa4fl.Core.Tag.{FixedTypeTag, FixedTypeTag-discrete, VecFixedAny, get_tag, elements}
use dpsa4fl.Core.Types.{
  Locations, ManagerLocations, VdafParameter, VdafParameter-discrete, CommonStateParametrization,
}
use dpsa4fl.Core.Helpers.{task_id_from_string}
use dpsa4fl.Manager.Messages.{time_precision}
use dpsa4fl.Manager.Network.{Network}
use dpsa4fl.Manager.Consumer.{get_vdaf_parameter_from_task, get_main_locations}

module _ (J : Janus) where
  pub record RoundSettings : Type 0 where
    pub task_id : J.TaskId
    pub time_precision : J.Duration
    pub should_request_hpke_config : Bool

  -- `RoundSettings::new`
  unfoldable pub new_round_settings : {S : Type 0} → Text → Action S RoundSettings
  unfolding task_id_from_string
  new_round_settings task_id_base64 = do
    t ← task_id_from_string J task_id_base64
    pure (record {
      task_id = t;
      time_precision = J.duration_from_seconds time_precision;
      should_request_hpke_config = false;
    })

  pub record RoundConfig : Type 0 where
    pub settings : RoundSettings

  pub record ClientStateRound : Type 0 where
    pub config : RoundConfig

  pub record ClientStatePermanent : Type 0 where
    pub http_client : J.HttpClient

  pub record ClientState : Type 0 where
    pub parametrization : CommonStateParametrization J
    pub permanent : ClientStatePermanent
    pub round : ClientStateRound

  pub data ClientStatePu : Type 0 where
    valid_state : ClientState → ClientStatePu
    init_state : ManagerLocations J → ClientStatePu

  unfoldable pub get_valid_state : ClientStatePu → Option ClientState
  get_valid_state (valid_state s) = some s
  get_valid_state (init_state p) = none

  unfoldable pub api_new_client_state : ManagerLocations J → ClientStatePu
  api_new_client_state p = init_state p

  module _ {W : Type 0} (net : Network J W) where
    unfoldable pub get_parametrization :
        J.TaskId → Locations J → Action W (CommonStateParametrization J)
    get_parametrization task_id l = do
      leader_param ← get_vdaf_parameter_from_task J net l.manager.external_leader task_id
      helper_param ← get_vdaf_parameter_from_task J net l.manager.external_helper task_id
      ite (VdafParameter-discrete J leader_param helper_param)
          (pure (record { location = l; vdaf_parameter = leader_param })) (fail parameters_differ)

    -- `ClientState::new`
    unfoldable pub new_client_state : ManagerLocations J → RoundSettings → Action W ClientState
    new_client_state manager_locations round_settings = do
      http_client ← ok_or J.default_http_client janus_client_error
      main_locations ← get_main_locations J net manager_locations
      let locations : Locations J = record { main = main_locations; manager = manager_locations }
      parametrization ← get_parametrization round_settings.task_id locations
      pure (record {
        parametrization = parametrization;
        permanent = record { http_client = http_client };
        round = record { config = record { settings = round_settings } };
      })

    unfoldable pub update_to_next_round_config : RoundSettings → ClientState → ClientState
    update_to_next_round_config round_settings s = record s {
      round = record { config = record { settings = round_settings } };
    }

    -- `get_janus_client`, at the fixed-point type of the tag.
    unfoldable pub get_janus_client :
        (tag : FixedTypeTag)
        → RoundSettings
        → Locations J
        → VdafParameter J
        → Action W (net.Client tag)
    get_janus_client tag round_settings l p = do
      vdaf_client ← ok_or (J.new_fixedpoint_boundedl2_vec_sum tag 2 p.gradient_len) vdaf_error
      λ w.
          let (r, w') =
            net.build tag round_settings.task_id l.main.external_leader l.main.external_helper
              (J.duration_from_seconds 1) vdaf_client w in
          ok_or r janus_client_error w'

    -- `get_submission_result`: the length is checked, then the type, then the gradient is sent.
    unfoldable pub get_submission_result : ClientState → VecFixedAny → Action W (Unit {0})
    get_submission_result s v =
        let p = s.parametrization.vdaf_parameter in
        ite (ℕ_discrete (length (elements v)) p.gradient_len)
          (ite (FixedTypeTag-discrete (get_tag v) p.submission_type)
            (do
              client ←
                  get_janus_client (get_tag v) s.round.config.settings s.parametrization.location p
              λ w.
                  let (r, w') = net.upload (get_tag v) client (elements v) w in
                  ok_or r janus_client_error w')
            (fail wrong_type))
          (fail (wrong_length p.gradient_len (length (elements v))))

    -- The client's state and the world that its calls reach.
    pub record Session : Type 0 where
      pub state : ClientStatePu
      pub world : W

    abbrev pub on_world : {A : Type 0} → Action W A → Action Session A
    on_world m s = let (r, w) = m s.world in (r, record s { world = w })

    abbrev pub set_state : ClientStatePu → Action Session (Unit {0})
    set_state p s = (ok tt, record s { state = p })

    -- The `match` of `api_update_client_round_settings`.
    unfoldable pub update_state : RoundSettings → ClientStatePu → Action Session (Unit {0})
    unfolding new_client_state update_to_next_round_config
    update_state round_settings (init_state p) = do
      client_state ← on_world (new_client_state p round_settings)
      set_state (valid_state client_state)
    update_state round_settings (valid_state c) =
        set_state (valid_state (update_to_next_round_config round_settings c))

    unfoldable pub api_update_client_round_settings : RoundSettings → Action Session (Unit {0})
    unfolding update_state
    api_update_client_round_settings round_settings s = update_state round_settings s.state s

    -- The `match` of `api_submit_with`.
    unfoldable pub submit_state :
        (CommonStateParametrization J → VecFixedAny) → ClientStatePu → Action Session (Unit {0})
    submit_state get_data (init_state p) = fail not_initialized
    submit_state get_data (valid_state c) =
        on_world (get_submission_result c (get_data c.parametrization))

    unfoldable pub api_submit_with :
        RoundSettings → (CommonStateParametrization J → VecFixedAny) → Action Session (Unit {0})
    api_submit_with round_settings get_data =
        api_update_client_round_settings round_settings >> (λ s. submit_state get_data s.state s)
