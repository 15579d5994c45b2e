-- ===== src/Manager/Http.antt =====
-- The HTTP messages between the parts. A JSON document is the value that it was made from, one
-- constructor for each type that is sent: `serde` writes and reads those, and leaves aside the fields
-- that a type does not have.
use mathlib.Core.Option
use dpsa4fl.Base.{◌≡◌, ◌≢◌, ◌⊎◌, inl, inr, refl, ℕ, Option, none, some, Text, text, Error}
use dpsa4fl.External.{Janus}
use dpsa4fl.Core.Types.{MainLocations}
use dpsa4fl.Manager.Messages.{
  TrainingSessionId, CreateTrainingSessionRequest, CreateTrainingSessionResponse, StartRoundRequest,
  GetVdafParameterRequest, GetVdafParameterResponse,
}

pub data Method : Type 0 where
  get_method : Method
  post_method : Method

pub data Route : Type 0 where
  create_session : Route
  end_session : Route
  start_round : Route
  get_vdaf_parameter : Route
  get_main_locations : Route

-- The texts that the clients join to a manager's address.
abbrev pub path : Route → Text
path create_session = text "/create_session"
path end_session = text "/end_session"
path start_round = text "/start_round"
path get_vdaf_parameter = text "/get_vdaf_parameter"
path get_main_locations = text "/get_main_locations"

-- Whether a route is that of the query.
pub query_or_other :
    (route : Option Route)
    → (route ≡ some Route.get_vdaf_parameter) ⊎ (route ≢ some Route.get_vdaf_parameter)
query_or_other none = inr (λ e. cc)
query_or_other (some Route.create_session) = inr (λ e. cc)
query_or_other (some Route.end_session) = inr (λ e. cc)
query_or_other (some Route.start_round) = inr (λ e. cc)
query_or_other (some Route.get_vdaf_parameter) = inl refl
query_or_other (some Route.get_main_locations) = inr (λ e. cc)

module _ (J : Janus) where
  pub data Json : Type 0 where
    create_request : CreateTrainingSessionRequest J → Json
    create_response : CreateTrainingSessionResponse → Json
    session_id : TrainingSessionId → Json
    start_request : StartRoundRequest → Json
    start_response : Json
    vdaf_request : GetVdafParameterRequest → Json
    vdaf_response : GetVdafParameterResponse J → Json
    locations : MainLocations J → Json
    unit_document : Json
    error_text : Error → Json
    -- `detail`, `instance` and `taskid`
    problem : Error → Text → Option J.TaskId → Json
    other_document : Json

  pub record Request : Type 0 where
    pub method : Method
    pub url : J.Url
    pub body : Option Json

  pub record Response : Type 0 where
    pub status : ℕ
    pub body : Json

  -- The readers of the types that a program part expects.
  abbrev pub as_create_request : Json → Option (CreateTrainingSessionRequest J)
  as_create_request (create_request q) = some q
  as_create_request _ = none

  abbrev pub as_create_response : Json → Option CreateTrainingSessionResponse
  as_create_response (create_response r) = some r
  as_create_response (start_request q) =
      some (record { training_session_id = q.training_session_id })
  as_create_response (create_request q) =
      Option.map (λ sid. record { training_session_id = sid }) q.training_session_id
  as_create_response _ = none

  abbrev pub as_session_id : Json → Option TrainingSessionId
  as_session_id (session_id sid) = some sid
  as_session_id _ = none

  abbrev pub as_start_request : Json → Option StartRoundRequest
  as_start_request (start_request q) = some q
  as_start_request _ = none

  abbrev pub as_vdaf_request : Json → Option GetVdafParameterRequest
  as_vdaf_request (vdaf_request q) = some q
  as_vdaf_request (start_request q) = some (record { task_id_encoded = q.task_id_encoded })
  as_vdaf_request _ = none

  abbrev pub as_vdaf_response : Json → Option (GetVdafParameterResponse J)
  as_vdaf_response (vdaf_response r) = some r
  as_vdaf_response (create_request q) = some (record { vdaf_parameter = q.vdaf_parameter })
  as_vdaf_response _ = none

  abbrev pub as_locations : Json → Option (MainLocations J)
  as_locations (locations l) = some l
  as_locations _ = none

-- `http::StatusCode`
abbrev pub status_ok : ℕ
status_ok = 200

abbrev pub status_bad_request : ℕ
status_bad_request = 400

abbrev pub status_see_other : ℕ
status_see_other = 303
