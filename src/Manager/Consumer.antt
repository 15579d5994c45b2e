-- ===== src/Manager/Consumer.antt =====
-- The client of the janus managers (src/janus_manager/interface/network/consumer.rs): the requests of
-- the controller, and the two queries that the clients make.
pub mod Queries
use dpsa4fl.Base.{
  List, Error, ℕ, ℕ_discrete, ◌+◌, ◌-◌, ◌*◌, ◌/◌, ◌%◌, ◌^◌, Option, none, some, Outcome, ok, err,
  panic, Action, pure, fail, abort, ok_or, unwrap, ◌>>=◌, Text, ite, error_from_leader,
  error_from_helper, end_failed, start_failed, no_hostname, no_port, vdaf_parameter_refused,
  locations_differ, locations_failed, json_error, vdaf_error, interval_error, janus_collector_error,
  clock_error, join_unwrap, keypair_unwrap, session_ids_differ,
}
use dpsa4fl.External.{Janus}
use dpsa4fl.Core.Tag.{FixedTypeTag, fixed_type_16_bit, fixed_type_32_bit}
use dpsa4fl.Core.Types.{
  Locations, MainLocations, ManagerLocations, MainLocations-discrete, VdafParameter,
  to_vdaf_instance,
}
use dpsa4fl.Manager.Messages.{
  TrainingSessionId, time_precision, Ambient, random_u8, CreateTrainingSessionRequest,
  StartRoundRequest,
}
use dpsa4fl.Manager.Http.{
  get_method, post_method, Route, path, Json, Request, Response, create_request, session_id,
  start_request, vdaf_request, as_create_response, as_vdaf_response, as_locations, status_ok,
}
use dpsa4fl.Manager.Network.{Network, send}

module _ (J : Janus) where
  open J use {
    Url, join, host, port, TaskId, get_encoded, Role, leader, helper, HpkeKeypair, config,
    AuthenticationToken, token_bytes, encode_base64, verify_key_length,
  }

  pub record JanusManagerClient : Type 0 where
    pub http_client : J.HttpClient
    pub location : Locations J
    pub hpke_keypair : HpkeKeypair
    pub leader_auth_token : AuthenticationToken
    pub collector_auth_token : AuthenticationToken
    pub vdaf_parameter : VdafParameter J

  -- `JanusManagerClient::new`, with the two tokens that it draws.
  unfoldable pub new_client :
      Ambient J
      → AuthenticationToken
      → AuthenticationToken
      → Locations J
      → VdafParameter J
      → Outcome JanusManagerClient
  new_client a leader_token collector_token location p =
      elim (J.generate_hpke_config_and_private_key a.seed (J.hpke_config_id (random_u8 J a))
        J.x25519_hkdf_sha256 J.hkdf_sha256 J.aes_256_gcm) [
          | none ↦ panic keypair_unwrap
          | some k ↦ ok (record {
            http_client = J.new_http_client;
            location = location;
            hpke_keypair = k;
            leader_auth_token = leader_token;
            collector_auth_token = collector_token;
            vdaf_parameter = p;
          })
        ]

  module _ {W : Type 0} (net : Network J W) where
    -- A POST of a document to a path of a manager.
    unfoldable pub post : Url → Route → Json J → Action W (Response J)
    post base route body = do
      url ← unwrap (join base (path route)) join_unwrap
      send net (record { method = post_method; url = url; body = some body })

    unfoldable pub get : Url → Route → Action W (Response J)
    get base route = do
      url ← unwrap (join base (path route)) join_unwrap
      send net (record { method = get_method; url = url; body = none })

    module _ (c : JanusManagerClient) where
      -- The closure `make_request`, at the verify key of the call.
      unfoldable pub make_request :
          List ℕ → Role → Option TrainingSessionId → CreateTrainingSessionRequest J
      make_request verify_key role id = record {
        training_session_id = id;
        role = role;
        verify_key_encoded = encode_base64 verify_key;
        collector_hpke_config = config c.hpke_keypair;
        collector_auth_token_encoded = encode_base64 (token_bytes c.collector_auth_token);
        leader_auth_token_encoded = encode_base64 (token_bytes c.leader_auth_token);
        vdaf_parameter = c.vdaf_parameter;
      }

      -- The `sample_iter(Standard).take(..)` of `create_session`.
      unfoldable pub draw_verify_key : Ambient J → List ℕ
      unfolding to_vdaf_instance
      draw_verify_key a = a.sample (verify_key_length (to_vdaf_instance J c.vdaf_parameter))

      -- The `match` on the status of an answer to `create_session`.
      unfoldable pub created_id : (ℕ → Error) → Response J → Action W TrainingSessionId
      created_id refused r =
          ite (ℕ_discrete r.status status_ok)
            (do
              created ← ok_or (as_create_response J r.body) json_error
              pure created.training_session_id)
            (fail (refused r.status))

      unfoldable pub create_session : Ambient J → Action W TrainingSessionId
      create_session a = do
        let key = draw_verify_key a
        leader_response ←
            post c.location.manager.external_leader Route.create_session
              (create_request (make_request key leader none))
        leader_id ← created_id error_from_leader leader_response
        helper_response ←
            post c.location.manager.external_helper Route.create_session
              (create_request (make_request key helper (some leader_id)))
        helper_id ← created_id error_from_helper helper_response
        ite (ℕ_discrete helper_id leader_id) (pure leader_id) (abort session_ids_differ)

      -- The `match` on the two statuses.
      unfoldable pub both_ok : {A : Type 0} → ℕ → ℕ → A → Error → Action W A
      both_ok res1 res2 a e =
          ite (ℕ_discrete res1 status_ok) (ite (ℕ_discrete res2 status_ok) (pure a) (fail e))
            (fail e)

      unfoldable pub end_session : TrainingSessionId → Action W (Unit {0})
      end_session sid = do
        l ← post c.location.manager.external_leader Route.end_session (session_id sid)
        h ← post c.location.manager.external_helper Route.end_session (session_id sid)
        both_ok l.status h.status tt (end_failed l.status h.status)

      unfoldable pub start_round : Ambient J → TrainingSessionId → Action W TaskId
      start_round a sid = do
        let request : StartRoundRequest = record {
          training_session_id = sid;
          task_id_encoded = encode_base64 (get_encoded a.task_id);
        }
        l ← post c.location.manager.external_leader Route.start_round (start_request request)
        h ← post c.location.manager.external_helper Route.start_round (start_request request)
        both_ok l.status h.status a.task_id (start_failed l.status h.status)

      -- The interval of the query, in seconds: from five precisions before the rounded clock, for
      -- fifteen of them. Subtraction is that of `u64` in a release build, which wraps.
      unfoldable pub query_start : ℕ → ℕ
      query_start seconds =
          let rounded = seconds / time_precision * time_precision in
          (rounded + 2 ^ 64 - time_precision * 5) % 2 ^ 64

      abbrev pub query_duration : ℕ
      query_duration = time_precision * 15

      unfoldable pub collect_generic :
          Ambient J → (tag : FixedTypeTag) → TaskId → Action W net.Collection
      collect_generic a tag task_id = do
        let url = c.location.main.external_leader
        vdaf ←
            ok_or (J.new_fixedpoint_boundedl2_vec_sum tag 2 c.vdaf_parameter.gradient_len)
              vdaf_error
        collector ←
            ok_or (net.new_collector tag task_id url c.collector_auth_token c.hpke_keypair vdaf)
              janus_collector_error
        start ← ok_or a.elapsed clock_error
        host_name ← ok_or (host url) no_hostname
        port_number ← ok_or (port url) no_port
        interval ←
            ok_or
              (J.new_interval (J.time_from_seconds_since_epoch (query_start start))
                (J.duration_from_seconds query_duration))
              interval_error
        λ w. let (r, w') = net.collect collector interval w in ok_or r janus_collector_error w'

      -- `collect`: by the tag of the submissions.
      unfoldable pub collect : Ambient J → TaskId → Action W net.Collection
      collect a task_id = elim c.vdaf_parameter.submission_type [
        | fixed_type_16_bit ↦ collect_generic a fixed_type_16_bit task_id
        | fixed_type_32_bit ↦ collect_generic a fixed_type_32_bit task_id
      ]

    unfoldable pub get_vdaf_parameter_from_task : Url → TaskId → Action W (VdafParameter J)
    get_vdaf_parameter_from_task manager_server task_id = do
      response ←
          post manager_server Route.get_vdaf_parameter
            (vdaf_request (record { task_id_encoded = encode_base64 (get_encoded task_id) }))
      answer ← ok_or (as_vdaf_response J response.body) vdaf_parameter_refused
      pure answer.vdaf_parameter

    -- The `match` on the two answers.
    unfoldable pub same_locations :
        Option (MainLocations J) → Option (MainLocations J) → Action W (MainLocations J)
    same_locations (some a) (some b) =
        ite (MainLocations-discrete J a b) (pure a) (fail locations_differ)
    same_locations (some a) none = fail locations_failed
    same_locations none _ = fail locations_failed

    unfoldable pub get_main_locations : ManagerLocations J → Action W (MainLocations J)
    unfolding same_locations
    get_main_locations manager_servers = do
      response_leader ← get manager_servers.external_leader Route.get_main_locations
      response_helper ← get manager_servers.external_helper Route.get_main_locations
      same_locations (as_locations J response_leader.body) (as_locations J response_helper.body)
