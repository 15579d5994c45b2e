-- ===== src/Manager/Server/Steps.antt =====
-- The server as a run of the steps that the locks of the provisioner leave open.
use dpsa4fl.Base.{
  ◌≡◌, refl, sym, subst, inl, inr, arith, Option, none, some, Action, List, [], ◌∷◌, Option-cases,
}
use dpsa4fl.External.{Janus}
use dpsa4fl.Manager.Messages.{Ambient, CreateTrainingSessionRequest}
use dpsa4fl.Manager.Http.{
  Method, get_method, post_method, Route, create_session, end_session, start_round,
  get_vdaf_parameter, get_main_locations, Json, Response,
}
use dpsa4fl.Manager.Provisioner.State.{TaskProvisioner, insert_session}
use dpsa4fl.Manager.Provisioner.Handlers.{
  handle_start_round, handle_create_session, handle_end_session, handle_get_vdaf_parameter,
}
use dpsa4fl.Manager.Provisioner.Create.{made_session, choose_id-Chooses, build_session-Builds}
use dpsa4fl.Manager.Provisioner.Machine.{Machine, Pending, Step, Reach}
use dpsa4fl.Manager.Server.Answers.{query_keeps}
use dpsa4fl.Manager.Server.{Rejection, endpoint, post_endpoint, serve}

-- A request as it arrives, with what is drawn and read from the clock while it is served.
pub record Arrival (J : Janus) : Type 0 where
  pub ambient : Ambient J
  pub method : Method
  pub route : Option Route
  pub body : Option (Json J)

-- The provisioner after the requests have been served one after the other.
abbrev pub served :
    (J : Janus)
    → (Rejection → Response J)
    → List (Arrival J)
    → TaskProvisioner J
    → TaskProvisioner J
served J rejected [] s = s
served J rejected (r ∷ rs) s =
    served J rejected rs (serve J rejected r.ambient r.method r.route r.body s).1

module _ (J : Janus) (start : Machine J) (ps : List (Pending J)) where
  -- The provisioner is reached, with the same creations under way.
  abbrev pub Reached : TaskProvisioner J → Type 0
  Reached s = Reach J start (record { provisioner = s; pending = ps })

  -- A creation that no other request runs into is three steps, or fails without one.
  creation-Reached :
      (a : Ambient J) (q : CreateTrainingSessionRequest J) (s : TaskProvisioner J)
      → Reached s
      → Reached (handle_create_session J a q s).1
  unfolding handle_create_session
  creation-Reached a q s h = elim (choose_id-Chooses J a q.training_session_id s) [
    | inr refused ↦
        let same : (handle_create_session J a q s).1 ≡ s = ground arith in
        subst Reached (sym same) h
    | inl (sid, chosen, fits) ↦ elim (build_session-Builds J a q s) [
      | inr failed ↦
          let same : (handle_create_session J a q s).1 ≡ s = ground arith in
          subst Reached (sym same) h
      | inl (p, built) ↦
          let v = made_session J a q s p in
          let created : (handle_create_session J a q s).1
              ≡ insert_session J sid v (record s { keyring = p.keyring }) =
            ground arith in
          subst Reached (sym created) (
            Reach.next
              (Reach.next (Reach.next h (Step.choose a q sid chosen))
                (Step.build [] ps a q sid v (record s { keyring = p.keyring }) refl built))
              (Step.insert [] ps sid v refl))
    ]
  ]

  endpoint-Reached :
      {A : Type 0} (m : Action (TaskProvisioner J) A) (f : A → Json J) (s : TaskProvisioner J)
      → Reached (m s).1
      → Reached (endpoint J m f s).1
  unfolding endpoint
  endpoint-Reached m f s h = h

  module _ (rejected : Rejection → Response J) where
    post_endpoint-Reached :
        {Q A : Type 0} (read : Json J → Option Q) (handler : Q → Action (TaskProvisioner J) A)
        (f : A → Json J) (m : Method) (body : Option (Json J)) (s : TaskProvisioner J)
        → Reached s
        → ((q : Q) → Reached (handler q s).1)
        → Reached (post_endpoint J rejected read handler f m body s).1
    unfolding post_endpoint
    post_endpoint-Reached read handler f get_method body s h k = h
    post_endpoint-Reached read handler f post_method none s h k = h
    post_endpoint-Reached read handler f post_method (some b) s h k = elim (Option-cases (read b)) [
      | inl e ↦ rw (e, post_endpoint) h
      | inr (q, e) ↦ rw (e, post_endpoint) (endpoint-Reached (handler q) f s (k q))
    ]

    serve-Reached :
        (a : Ambient J) (m : Method) (route : Option Route) (body : Option (Json J))
        (s : TaskProvisioner J)
        → Reached s
        → Reached (serve J rejected a m route body s).1
    unfolding serve
    serve-Reached a m none body s h = h
    serve-Reached a m (some create_session) body s h =
        post_endpoint-Reached _ (handle_create_session J a) _ m body s h
          (λ q. creation-Reached a q s h)
    serve-Reached a m (some end_session) body s h =
        post_endpoint-Reached _ (handle_end_session J) _ m body s h
          (λ sid. Reach.next h (Step.end_session sid))
    serve-Reached a m (some start_round) body s h =
        post_endpoint-Reached _ (handle_start_round J a) _ m body s h
          (λ q. Reach.next h (Step.start_round a q))
    serve-Reached a m (some get_vdaf_parameter) body s h =
        post_endpoint-Reached _ (handle_get_vdaf_parameter J) _ m body s h
          (λ q. subst Reached (sym (query_keeps J q s)) h)
    serve-Reached a get_method (some get_main_locations) body s h = h
    serve-Reached a post_method (some get_main_locations) body s h = h

    -- Serving requests one after the other is a run of the machine, in which each request takes its
    -- steps without another between them: from a provisioner that the machine reaches, with any
    -- creations under way, it reaches the one that is left, with the same creations under way.
    pub served-Reached :
        (rs : List (Arrival J)) (s : TaskProvisioner J)
        → Reached s
        → Reached (served J rejected rs s)
    served-Reached [] s h = h
    served-Reached (r ∷ rs) s h =
        served-Reached rs (serve J rejected r.ambient r.method r.route r.body s).1
          (serve-Reached r.ambient r.method r.route r.body s h)
