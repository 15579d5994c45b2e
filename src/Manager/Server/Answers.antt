-- ===== src/Manager/Server/Answers.antt =====
-- What the answers of the server say about its state.
use dpsa4fl.Base.{
  Option-cases, ℕ, true, ◌≡◌, refl, ◌⊎◌, inl, inr, arith, Option, none, some, Outcome, ok, err,
  panic, Action, is_ok,
}
use dpsa4fl.External.{Janus}
use dpsa4fl.External.Laws.{IsTransactional}
use dpsa4fl.Manager.Messages.{
  StartRoundRequest, CreateTrainingSessionRequest, GetVdafParameterRequest, Ambient,
}
use dpsa4fl.Manager.Provisioner.State.{session_of, TaskProvisioner}
use dpsa4fl.Manager.Provisioner.Handlers.{
  handle_start_round, handle_create_session, handle_end_session, handle_get_vdaf_parameter,
}
use dpsa4fl.Manager.Provisioner.Start.{handle_start_round-Starts}
use dpsa4fl.Manager.Provisioner.Create.{handle_create_session-Creates}
use dpsa4fl.Manager.Http.{
  Method, get_method, post_method, Route, create_session, end_session, start_round,
  get_vdaf_parameter, get_main_locations, Json, Response, status_ok,
}
use dpsa4fl.Manager.Server.{Rejection, endpoint, post_endpoint, serve}

-- A query changes nothing.
pub query_keeps :
    (J : Janus) (q : GetVdafParameterRequest) (s : TaskProvisioner J)
    → (handle_get_vdaf_parameter J q s).1 ≡ s
unfolding handle_get_vdaf_parameter
query_keeps J q s = elim (Option-cases (J.decode_base64 q.task_id_encoded)) [
  | inl e ↦ ground arith
  | inr (bytes, e) ↦ elim (Option-cases (J.get_decoded bytes)) [
    | inl e' ↦ ground arith
    | inr (t, e') ↦ ground arith
  ]
]

module _ (J : Janus) (rejected : Rejection → Response J) where
  -- A call that succeeds or changes nothing.
  abbrev IsAtomic : {A : Type 0} → Action (TaskProvisioner J) A → Type 0
  IsAtomic m = (s : TaskProvisioner J) → (is_ok (m s).0 ≡ true) ⊎ ((m s).1 ≡ s)

  -- A call that answers 200 or changes nothing, and never answers with a problem document.
  abbrev pub Answers : Outcome (Response J) × TaskProvisioner J → TaskProvisioner J → Type 0
  Answers r s =
      ((answer : Response J) × (r.0 ≡ ok answer) × (answer.status ≡ status_ok)) ⊎ (r.1 ≡ s)

  endpoint-Answers :
      {A : Type 0} (m : Action (TaskProvisioner J) A) (f : A → Json J)
      → IsAtomic m
      → (s : TaskProvisioner J) → Answers (endpoint J m f s) s
  unfolding endpoint
  endpoint-Answers {A} m f atomic s = by_result (m s).0 refl
    where
      by_result : (r : Outcome A) → (m s).0 ≡ r → Answers (endpoint J m f s) s
      by_result (ok a) e = inl (record { status = status_ok; body = f a }, ground arith, refl)
      by_result (err x) e = ground (arith, atomic s)
      by_result (panic x) e = ground (arith, atomic s)

  query-IsAtomic : (q : GetVdafParameterRequest) → IsAtomic (handle_get_vdaf_parameter J q)
  query-IsAtomic q s = inr (query_keeps J q s)

  end-IsAtomic : (sid : ℕ) → IsAtomic (handle_end_session J sid)
  unfolding handle_end_session
  end-IsAtomic sid s = elim (Option-cases (session_of J sid s)) [
    | inl e ↦ inr (ground arith)
    | inr (v, e) ↦ inl (ground arith)
  ]

  create-IsAtomic :
      (a : Ambient J) (q : CreateTrainingSessionRequest J) → IsAtomic (handle_create_session J a q)
  create-IsAtomic a q s = elim (handle_create_session-Creates J a q s) [
    | inl (p, sid, fits, e) ↦ inl (rw e)
    | inr (same, failed) ↦ inr same
  ]

  start-IsAtomic :
      IsTransactional J
      → (a : Ambient J) (q : StartRoundRequest) → IsAtomic (handle_start_round J a q)
  start-IsAtomic L a q s = elim (handle_start_round-Starts J L a q s) [
    | inl (p, d, e, posted) ↦ inl (rw e)
    | inr (same, failed) ↦ inr same
  ]

  post_endpoint-Answers :
      {Q A : Type 0} (read : Json J → Option Q) (handler : Q → Action (TaskProvisioner J) A)
      (f : A → Json J)
      → ((q : Q) → IsAtomic (handler q))
      → (m : Method) (body : Option (Json J)) (s : TaskProvisioner J)
      → Answers (post_endpoint J rejected read handler f m body s) s
  unfolding post_endpoint
  post_endpoint-Answers read handler f atomic get_method body s = inr refl
  post_endpoint-Answers read handler f atomic post_method none s = inr refl
  post_endpoint-Answers read handler f atomic post_method (some b) s =
      elim (Option-cases (read b)) [
        | inl e ↦ inr (rw (e, post_endpoint))
        | inr (q, e) ↦ rw (e, post_endpoint) (endpoint-Answers (handler q) f (atomic q) s)
      ]

  -- Under transactions that commit or roll back: whatever request the server is sent, it answers with status 200, or it has changed nothing: an
  -- error, a rejection and a panic leave sessions, keys and datastore as they were.
  pub serve_atomic :
      IsTransactional J
      → (a : Ambient J) (m : Method) (route : Option Route) (body : Option (Json J))
      → (s : TaskProvisioner J) → Answers (serve J rejected a m route body s) s
  unfolding serve
  serve_atomic L a m none body s = inr refl
  serve_atomic L a m (some create_session) body s =
      post_endpoint-Answers _ (handle_create_session J a) _ (create-IsAtomic a) m body s
  serve_atomic L a m (some end_session) body s =
      post_endpoint-Answers _ (handle_end_session J) _ end-IsAtomic m body s
  serve_atomic L a m (some start_round) body s =
      post_endpoint-Answers _ (handle_start_round J a) _ (start-IsAtomic L a) m body s
  serve_atomic L a m (some get_vdaf_parameter) body s =
      post_endpoint-Answers _ (handle_get_vdaf_parameter J) _ query-IsAtomic m body s
  serve_atomic L a get_method (some get_main_locations) body s = inl (_, refl, refl)
  serve_atomic L a post_method (some get_main_locations) body s = inr refl

module _ (J : Janus) where
  -- An endpoint that answers 200 has run its handler to a value, and answers with its document.
  pub endpoint-eq-ok :
      {A : Type 0} (m : Action (TaskProvisioner J) A) (f : A → Json J)
      → (s s' : TaskProvisioner J) (r : Response J) → endpoint J m f s ≡ (ok r, s')
      → r.status ≡ status_ok
      → (a : A) × (m s ≡ (ok a, s')) × (r.body ≡ f a)
  unfolding endpoint
  endpoint-eq-ok {A} m f s s' r h is_200 = by_result (m s).0 refl
    where
      by_result : (x : Outcome A) → (m s).0 ≡ x → (a : A) × (m s ≡ (ok a, s')) × (r.body ≡ f a)
      by_result (ok a) e = (a, ground arith, ground arith)
      by_result (err x) e = ground arith
      by_result (panic x) e = ground arith
