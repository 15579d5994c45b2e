-- ===== src/Manager/Server.antt =====
-- The endpoints of the janus manager server
-- (src/janus_manager/interface/network/provider.rs). What `warp` answers where a request fits no
-- endpoint is a parameter; timing, tracing and CORS headers are left out.
pub mod Answers
pub mod Steps
pub mod Rely
pub mod Gains
pub mod Only
pub mod Abstract
use dpsa4fl.Base.{
  text, ℕ, Option, none, some, Outcome, ok, err, panic, Action, pure, Error, ◌>>=◌, lift,
}
use dpsa4fl.External.{Janus}
use dpsa4fl.Manager.Messages.{Ambient}
use dpsa4fl.Manager.Provisioner.State.{TaskProvisioner}
use dpsa4fl.Manager.Provisioner.Handlers.{
  handle_start_round, handle_create_session, handle_end_session, handle_get_vdaf_parameter,
}
use dpsa4fl.Manager.Http.{
  Method, get_method, post_method, Route, create_session, end_session, start_round,
  get_vdaf_parameter, get_main_locations, Json, Response, create_response, start_response,
  vdaf_response, locations, unit_document, error_text, problem, as_create_request, as_session_id,
  as_start_request, as_vdaf_request, status_ok, status_bad_request, status_see_other,
}

-- Why `warp` refuses a request: no such path, another method, a body that is not the document.
pub data Rejection : Type 0 where
  not_found : Rejection
  method_not_allowed : Rejection
  bad_body : Rejection

module _ (J : Janus) where
  -- The `match result` of each endpoint: 200 with the document, or 400 with the error's text. Both
  -- are an `Ok` of the endpoint's future.
  unfoldable pub respond : {A : Type 0} → (A → Json J) → Outcome A → Outcome (Response J)
  respond f (ok a) = ok (record { status = status_ok; body = f a })
  respond f (err e) = ok (record { status = status_bad_request; body = error_text e })
  respond f (panic p) = panic p

  -- `build_problem_details_response`, with no task id; the content type is left out.
  unfoldable pub problem_details : Error → Response J
  problem_details e = record { status = status_see_other; body = problem e (text "..") none }

  -- `error_handler`: an error of the endpoint's future becomes a problem document.
  unfoldable pub error_handler : Outcome (Response J) → Outcome (Response J)
  unfolding problem_details
  error_handler (ok r) = ok r
  error_handler (err e) = ok (problem_details e)
  error_handler (panic p) = panic p

  -- One endpoint: the handler, the `match` on its result and the wrappers.
  unfoldable pub endpoint :
      {A : Type 0}
      → Action (TaskProvisioner J) A
      → (A → Json J)
      → Action (TaskProvisioner J) (Response J)
  unfolding respond error_handler
  endpoint handler f s = let (r, s') = handler s in (error_handler (respond f r), s')

  module _ (rejected : Rejection → Response J) where
    -- The filter of a POST endpoint: the method, and the body as the expected document.
    unfoldable pub post_endpoint :
        {Q A : Type 0}
        → (Json J → Option Q)
        → (Q → Action (TaskProvisioner J) A)
        → (A → Json J)
        → Method
        → Option (Json J)
        → Action (TaskProvisioner J) (Response J)
    post_endpoint read handler f get_method body = pure (rejected method_not_allowed)
    post_endpoint read handler f post_method none = pure (rejected bad_body)
    post_endpoint read handler f post_method (some b) = elim (read b) [
      | none ↦ pure (rejected bad_body)
      | some q ↦ endpoint (handler q) f
    ]

    unfoldable pub get_endpoint :
        {A : Type 0}
        → Action (TaskProvisioner J) A
        → (A → Json J)
        → Method
        → Action (TaskProvisioner J) (Response J)
    get_endpoint handler f get_method = endpoint handler f
    get_endpoint handler f post_method = pure (rejected method_not_allowed)

    unfoldable pub create_session_endpoint :
        Ambient J → Method → Option (Json J) → Action (TaskProvisioner J) (Response J)
    unfolding post_endpoint
    create_session_endpoint a =
        post_endpoint (as_create_request J) (handle_create_session J a)
          (λ sid. create_response (record { training_session_id = sid }))

    unfoldable pub end_session_endpoint :
        Method → Option (Json J) → Action (TaskProvisioner J) (Response J)
    unfolding post_endpoint
    end_session_endpoint =
        post_endpoint (as_session_id J) (handle_end_session J) (λ _. unit_document)

    unfoldable pub start_round_endpoint :
        Ambient J → Method → Option (Json J) → Action (TaskProvisioner J) (Response J)
    unfolding post_endpoint
    start_round_endpoint a =
        post_endpoint (as_start_request J) (handle_start_round J a) (λ _. start_response)

    unfoldable pub get_vdaf_parameter_endpoint :
        Method → Option (Json J) → Action (TaskProvisioner J) (Response J)
    unfolding post_endpoint
    get_vdaf_parameter_endpoint =
        post_endpoint (as_vdaf_request J) (handle_get_vdaf_parameter J)
          (λ p. vdaf_response (record { vdaf_parameter = p }))

    unfoldable pub get_main_locations_endpoint : Method → Action (TaskProvisioner J) (Response J)
    unfolding get_endpoint
    get_main_locations_endpoint = get_endpoint (λ s. (ok s.config.main_locations, s)) locations

    -- `janus_manager_filter`: the endpoint of the path. A path that is none of these is rejected.
    unfoldable pub serve :
        Ambient J
        → Method
        → Option Route
        → Option (Json J)
        → Action (TaskProvisioner J) (Response J)
    unfolding create_session_endpoint end_session_endpoint start_round_endpoint
        get_vdaf_parameter_endpoint get_main_locations_endpoint post_endpoint get_endpoint endpoint
    serve a m none body = pure (rejected not_found)
    serve a m (some start_round) body = start_round_endpoint a m body
    serve a m (some create_session) body = create_session_endpoint a m body
    serve a m (some end_session) body = end_session_endpoint m body
    serve a m (some get_vdaf_parameter) body = get_vdaf_parameter_endpoint m body
    serve a m (some get_main_locations) body = get_main_locations_endpoint m
