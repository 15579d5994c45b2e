-- ===== src/Examples/Calls.antt =====
-- The calls of the controller and of a client, over a network that answers everything.
use dpsa4fl.Manager.Consumer.Queries.{collect_portless, query_covers_now}
use dpsa4fl.Manager.Consumer.{
  get_vdaf_parameter_from_task, start_round, both_ok, post, collect_generic, query_duration,
  query_start, JanusManagerClient,
}
use dpsa4fl.Controller.Session.{run_all, ends, round}
use dpsa4fl.Controller.Collection.{collect_started}
use dpsa4fl.Controller.{api_start_round, api_collect, Running, ControllerStateImmut}
use dpsa4fl.Client.Settings.{api_update_client_round_settings-Updates, Updates}
use dpsa4fl.Client.Submission.{api_submit_with_cases, get_submission_result-Submits, Submits}
use dpsa4fl.Client.{
  api_submit_with, api_update_client_round_settings, valid_state, init_state, Session,
  get_janus_client, get_submission_result, get_parametrization, ClientState, RoundSettings,
}
use dpsa4fl.Core.Tag.{fixed_type_16_bit, vec_fixed_16, VecFixedAny}
use dpsa4fl.Core.Types.{CommonStateParametrization}
use dpsa4fl.Manager.Network.{Network}
use dpsa4fl.Manager.Http.{locations, create_response, vdaf_response, vdaf_request, Json}
use dpsa4fl.Base.{
  ℕ, suc, ℕ_discrete, ◌≡◌, ◌⊎◌, refl, [], ◌∷◌, Option, none, some, ok, arith, is_ok, false, Text,
  ◌%◌, ◌+◌, ◌≤◌, ◌<◌,
}
use dpsa4fl.Examples.Data.{
  draws, parameter, main_locations, manager_locations, all_locations, controller_client,
}
use dpsa4fl.External.Sample.{sample, single}

abbrev reply : Option (Json sample) → Json sample
reply (some (vdaf_request q)) = vdaf_response (record { vdaf_parameter = parameter })
reply (some _) = create_response (record { training_session_id = 4 })
reply none = locations main_locations

-- The state counts the exchanges.
abbrev net : Network sample ℕ
net = record {
  exchange = λ q w. (some (record { status = 200; body = reply q.body }), suc w);
  Collector = Unit {0};
  Collection = ℕ;
  new_collector = λ tag t u token k v. some tt;
  collect = λ c i w. (some 12, suc w);
  Client = λ tag. Unit {0};
  build = λ tag t l h d v w. (some tt, suc w);
  upload = λ tag c v w. (some tt, suc w);
}

abbrev round_42 : RoundSettings sample
round_42 = record { task_id = 42; time_precision = 3600; should_request_hpke_config = false }

abbrev agreed : CommonStateParametrization sample
agreed = record { location = all_locations; vdaf_parameter = parameter }

abbrev gradient : VecFixedAny
gradient = vec_fixed_16 (100 ∷ 200 ∷ [])

abbrev client : ClientState sample
client = record {
  permanent = record { http_client = tt };
  parametrization = agreed;
  round = record { config = record { settings = round_42 } };
}

asks_both : get_parametrization sample net 42 all_locations 0 ≡ (ok agreed, 2)
unfolding get_parametrization get_vdaf_parameter_from_task post
asks_both = ground arith

submits : get_submission_result sample net client gradient 0 ≡ (ok tt, 2)
unfolding get_submission_result get_janus_client ℕ_discrete
submits = ground arith

get_submission_result-Submits_example :
    Submits sample net client gradient 0 (get_submission_result sample net client gradient 0)
get_submission_result-Submits_example = get_submission_result-Submits sample net client gradient 0

abbrev new_client_session : Session sample net
new_client_session = record { state = init_state manager_locations; world = 0 }

api_update_client_round_settings-Updates_example :
    Updates sample net new_client_session round_42
      (api_update_client_round_settings sample net round_42 new_client_session)
api_update_client_round_settings-Updates_example =
    api_update_client_round_settings-Updates sample net round_42 new_client_session

api_submit_with_cases_example :
    let u = api_update_client_round_settings sample net round_42 new_client_session in
    let r = api_submit_with sample net round_42 (λ p. gradient) new_client_session in
    ((is_ok u.0 ≡ false) × (r ≡ u))
    ⊎ ((c : ClientState sample) × (u.0 ≡ ok tt)
        × (u.1.state ≡ valid_state c)
        × (r.1.state ≡ valid_state c)
        × Submits sample net c gradient u.1.world (r.0, r.1.world))
api_submit_with_cases_example =
    api_submit_with_cases sample net round_42 (λ p. gradient) new_client_session

abbrev controller : ControllerStateImmut sample
controller = record {
  parametrization = agreed;
  permanent = record { janus_tasks_client = controller_client };
}

abbrev running : Option ℕ → Option ℕ → Running sample net
running sid t = record {
  mstate = record { round = record { task_id = t; training_session_id = sid } };
  world = 0;
}

portful : single (81 ∷ []) ≡ some 81
unfolding single
portful = refl

-- The controller after a round was started in session 4, and after the session was ended then.
abbrev started : Running sample net
started = (api_start_round sample net controller draws (running (some 4) none)).1

abbrev started_and_ended : Running sample net
started_and_ended = run_all sample net controller (ends ∷ []) started

starts_round :
    api_start_round sample net controller draws (running (some 4) none)
    ≡ (ok (64 ∷ 42 ∷ []), started)
unfolding api_start_round start_round post both_ok
starts_round = ground arith

abbrev text_42 : Text
text_42 = 64 ∷ 42 ∷ []

collect_started_example :
    (text_42 ≡ sample.task_id_text 42)
    × (api_collect sample net controller draws started_and_ended
        ≡ (ok 12, record started_and_ended { world = suc started_and_ended.world }))
collect_started_example =
    let c = controller_client in
    let start = query_start sample net c 100000 in
    collect_started sample net controller draws draws (running (some 4) none) started text_42
      (ends ∷ []) 2 tt 100000 81 (81 ∷ []) (start, query_duration sample net c) 12
      (suc started_and_ended.world) starts_round (λ h. h, tt) refl refl refl refl portful refl refl

query_covers_now_example :
    let start = query_start sample net controller_client 100000 in
    (start % 3600 ≡ 0)
    × (start + 18000 ≤ 100000)
    × (100000 < start + 21600)
    × (100000 + 32400 < start + query_duration sample net controller_client)
query_covers_now_example =
    query_covers_now sample net controller_client 100000 (omega arith) (omega arith)

-- A manager whose address has no port.
abbrev portless_client : JanusManagerClient sample
portless_client = record controller_client {
  location = record {
    main = record { external_leader = []; external_helper = [] };
    manager = manager_locations;
  };
}

collect_portless_example :
    (is_ok (collect_generic sample net portless_client draws fixed_type_16_bit 42 0).0 ≡ false)
    × ((collect_generic sample net portless_client draws fixed_type_16_bit 42 0).1 ≡ 0)
unfolding single
collect_portless_example =
    collect_portless sample net portless_client draws fixed_type_16_bit 42 0 refl
