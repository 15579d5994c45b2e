-- ===== src/Manager/Provisioner/Swap/Order.antt =====
-- The server's answers to the end of a session and to a request for another session, in both orders.
use dpsa4fl.Base.{
  ok, err, no_session_to_remove, Option, ℕ, ◌≡◌, ◌≢◌, ◌∙◌, refl, ap, inl, inr, none, some, ok,
  Action, Option-cases,
}
use mathlib.Core.Option
use dpsa4fl.External.{Janus}
use dpsa4fl.Manager.Messages.{Ambient}
use dpsa4fl.Manager.Http.{
  unit_document, Method, get_method, post_method, Route, create_session, end_session, start_round,
  get_vdaf_parameter, get_main_locations, Json, Response, session_id, locations, as_create_request,
  as_session_id, as_start_request,
}
use dpsa4fl.Manager.Provisioner.State.{remove_session, TaskProvisioner, TrainingSession, session_of}
use dpsa4fl.Manager.Provisioner.Handlers.{
  handle_start_round, handle_create_session, handle_end_session,
}
use dpsa4fl.Manager.Server.{Rejection, respond, error_handler, endpoint, post_endpoint, serve}
use dpsa4fl.Manager.Provisioner.Same.{Same, Same-refl}
use dpsa4fl.Manager.Provisioner.Frame.{Framed, pure-Framed}
use dpsa4fl.Manager.Provisioner.Swap.{
  id_or_drawn, start_round-Framed, create_session-Framed, end_session-Framed,
}

module _ (J : Janus) where
  -- The session that a request creates, starts a round in, or ends.
  abbrev pub session_named : Ambient J → Option Route → Option (Json J) → Option ℕ
  session_named a (some create_session) (some b) =
      Option.map (λ q. id_or_drawn J a q.training_session_id) (as_create_request J b)
  session_named a (some start_round) (some b) =
      Option.map (λ q. q.training_session_id) (as_start_request J b)
  session_named a (some end_session) (some b) = as_session_id J b
  session_named _ _ _ = none

  handle_end_session-eq-err :
      (sid : ℕ) (s : TaskProvisioner J)
      → session_of J sid s ≡ none
      → handle_end_session J sid s ≡ (err (no_session_to_remove sid), s)
  unfolding handle_end_session
  handle_end_session-eq-err sid s e = rw (handle_end_session, e) refl

  handle_end_session-eq-ok :
      (sid : ℕ) (s : TaskProvisioner J) (v : TrainingSession J)
      → session_of J sid s ≡ some v
      → handle_end_session J sid s ≡ (ok tt, remove_session J sid s)
  unfolding handle_end_session
  handle_end_session-eq-ok sid s v e = rw (handle_end_session, e) refl

  -- One call and then the other, in both orders: the same answers, and states that hold the same.
  abbrev pub Swaps :
      {A B : Type 0}
      → Action (TaskProvisioner J) A
      → Action (TaskProvisioner J) B
      → TaskProvisioner J
      → Type 0
  Swaps m n s =
      let (x, s1) = m s in
      let (y, s2) = n s1 in
      let (y', t1) = n s in let (x', t2) = m t1 in (x ≡ x') × (y ≡ y') × Same J s2 t2

  module _ (rejected : Rejection → Response J) (sid : ℕ) where
    endpoint-Framed :
        {A : Type 0} (m : Action (TaskProvisioner J) A) (f : A → Json J)
        → Framed J sid m
        → Framed J sid (endpoint J m f)
    unfolding endpoint
    endpoint-Framed m f h = record { on_rest = λ s. rw (h.on_rest s) refl; keeps = h.keeps }

    post_endpoint-Framed :
        {Q A : Type 0} (read : Json J → Option Q) (handler : Q → Action (TaskProvisioner J) A)
        (f : A → Json J) (m : Method) (body : Option (Json J))
        → ((b : Json J) (q : Q) → body ≡ some b → read b ≡ some q → Framed J sid (handler q))
        → Framed J sid (post_endpoint J rejected read handler f m body)
    unfolding post_endpoint
    post_endpoint-Framed read handler f get_method body h = pure-Framed J sid _
    post_endpoint-Framed read handler f post_method none h = pure-Framed J sid _
    post_endpoint-Framed read handler f post_method (some b) h = elim (Option-cases (read b)) [
      | inl e ↦ rw (e, post_endpoint) (pure-Framed J sid _)
      | inr (q, e) ↦ rw (e, post_endpoint) (endpoint-Framed (handler q) f (h b q refl e))
    ]

    pub serve-Framed :
        (a : Ambient J) (m : Method) (route : Option Route) (body : Option (Json J))
        → session_named a route body ≢ some sid
        → route ≢ some get_vdaf_parameter
        → Framed J sid (serve J rejected a m route body)
    unfolding serve
    serve-Framed a m none body ne query = pure-Framed J sid _
    serve-Framed a m (some create_session) body ne query =
        post_endpoint-Framed _ (handle_create_session J a) _ m body
          λ b q e e'. create_session-Framed J sid a q (λ same. ne (rw (e, e') (ap some same)))
    serve-Framed a m (some start_round) body ne query =
        post_endpoint-Framed _ (handle_start_round J a) _ m body
          λ b q e e'. start_round-Framed J sid a q (λ same. ne (rw (e, e') (ap some same)))
    serve-Framed a m (some end_session) body ne query =
        post_endpoint-Framed _ (handle_end_session J) _ m body
          λ b q e e'. end_session-Framed J sid q (λ same. ne (rw (e, e') (ap some same)))
    serve-Framed a m (some get_vdaf_parameter) body ne query = absurd (query refl)
    serve-Framed a get_method (some get_main_locations) body ne query =
        endpoint-Framed (λ x. (ok x.config.main_locations, x)) locations
          (record { on_rest = λ s. refl; keeps = λ s. refl })
    serve-Framed a post_method (some get_main_locations) body ne query = pure-Framed J sid _

    -- What the end of the session answers, and what it leaves.
    abbrev ended : Ambient J → Action (TaskProvisioner J) (Response J)
    ended b = serve J rejected b post_method (some end_session) (some (session_id sid))

    ended_missing :
        (b : Ambient J) (s : TaskProvisioner J)
        → session_of J sid s ≡ none
        → ended b s ≡ (
          error_handler J
              (respond J {A = Unit {0}} (λ _. unit_document) (err (no_session_to_remove sid))),
          s,
        )
    unfolding serve
    ended_missing b s e =
        ap (λ r. (error_handler J (respond J {A = Unit {0}} (λ _. unit_document) r.0), r.1))
          (handle_end_session-eq-err sid s e)

    ended_stored :
        (b : Ambient J) (s : TaskProvisioner J) (v : TrainingSession J)
        → session_of J sid s ≡ some v
        → ended b s ≡ (
          error_handler J (respond J {A = Unit {0}} (λ _. unit_document) (ok tt)),
          remove_session J sid s,
        )
    unfolding serve
    ended_stored b s v e =
        ap (λ r. (error_handler J (respond J {A = Unit {0}} (λ _. unit_document) r.0), r.1))
          (handle_end_session-eq-ok sid s v e)

    -- A call that leaves the session alone, and the end of the session.
    Framed-Swaps :
        {A : Type 0} (m : Action (TaskProvisioner J) A) (b : Ambient J) (s : TaskProvisioner J)
        → Framed J sid m
        → Swaps m (ended b) s
    Framed-Swaps m b s h = elim (Option-cases (session_of J sid s)) [
      | inl e ↦
          rw (ended_missing b (m s).1 (h.keeps s ∙ e), ended_missing b s e)
            (refl, refl, Same-refl J (m s).1)
      | inr (v, e) ↦
          rw (ended_stored b (m s).1 v (h.keeps s ∙ e), ended_stored b s v e, h.on_rest s)
            (refl, refl, Same-refl J (remove_session J sid (m s).1))
    ]

    -- Ending a session, and any request other than the query for a parameter that is not about that
    -- session, can be served in either order: both get the same answers, and the provisioners that
    -- are left hold the same. (A creation is about the id that it asks for, or else draws.)
    pub end_session-Swaps :
        (a b : Ambient J) (m : Method) (route : Option Route) (body : Option (Json J))
        (s : TaskProvisioner J)
        → session_named a route body ≢ some sid
        → route ≢ some get_vdaf_parameter
        → Swaps
            (serve J rejected a m route body)
            (serve J rejected b post_method (some end_session) (some (session_id sid)))
            s
    end_session-Swaps a b m route body s ne query =
        Framed-Swaps (serve J rejected a m route body) b s (serve-Framed a m route body ne query)
