-- ===== src/Manager/Server/Gains.antt =====
-- How a session comes to hold a task: by an accepted start of that round, and by no other request.
use dpsa4fl.Base.{
  ℕ, ◌≡◌, ◌∙◌, ◌⊎◌, Action, pure, ◌++◌, refl, ap, inl, inr, Option, none, some, ok, List, [], ◌∷◌,
}
use dpsa4fl.External.{Janus}
use dpsa4fl.External.Laws.{IsTransactional}
use dpsa4fl.Manager.Messages.{Ambient, StartRoundRequest}
use dpsa4fl.Manager.Http.{
  as_vdaf_request, as_session_id, as_create_request, Method, get_method, post_method, Route, Json,
  Response, start_request, as_start_request,
}
use dpsa4fl.Manager.Provisioner.State.{TaskProvisioner}
use dpsa4fl.Manager.Provisioner.Handlers.{
  handle_create_session, handle_start_round, handle_end_session, handle_get_vdaf_parameter,
}
use dpsa4fl.Manager.Server.{Rejection, bad_body, serve, endpoint, post_endpoint}
use dpsa4fl.Manager.Server.Answers.{query_keeps}
use dpsa4fl.Manager.Server.Steps.{Arrival, served}
use dpsa4fl.Manager.Provisioner.Gains.{
  Holds, IsStart, keeps, creation_gains, end_gains, start_gains,
}

module _ (J : Janus) (t : J.TaskId) (sid : ℕ) where
  module _ (rejected : Rejection → Response J) where
    -- A request that an endpoint takes is posted with a document that it reads.
    post_endpoint_gains :
        {Q A : Type 0} (read : Json J → Option Q) (handler : Q → Action (TaskProvisioner J) A)
        (f : A → Json J) (m : Method) (body : Option (Json J)) (s : TaskProvisioner J)
        → Holds J t sid (post_endpoint J rejected read handler f m body s).1
        → Holds J t sid s
          ⊎ ((q : Q) × (b : Json J) × (m ≡ post_method)
              × (body ≡ some b)
              × (read b ≡ some q)
              × Holds J t sid (handler q s).1)
    unfolding post_endpoint endpoint
    post_endpoint_gains read handler f get_method body s h = inl h
    post_endpoint_gains read handler f post_method none s h = inl h
    post_endpoint_gains {Q} {A} read handler f post_method (some b) s h = by_read (read b) refl h
      where
        by_read :
            (o : Option Q)
            → read b ≡ o
            → Holds J t sid
                ((elim o as (λ x. Action (TaskProvisioner J) (Response J)) [
                  | none ↦ pure (rejected bad_body)
                  | some q ↦ endpoint J (handler q) f
                ])
                  s).1
            → Holds J t sid s
              ⊎ ((q : Q) × (b' : Json J) × (post_method ≡ post_method)
                  × (some b ≡ some b')
                  × (read b' ≡ some q)
                  × Holds J t sid (handler q s).1)
        by_read none e g = inl g
        by_read (some q) e g = inr (q, b, refl, refl, e, g)

    -- A request for a start of the task's round in the session, which the server accepted.
    pub record Started (r : Arrival J) (s : TaskProvisioner J) : Type 0 where
      pub request : StartRoundRequest
      pub posted : r.method ≡ post_method
      pub to_start : r.route ≡ some Route.start_round
      pub sent : r.body ≡ some (start_request request)
      pub asked : IsStart J t sid request
      pub accepted : (handle_start_round J r.ambient request s).0 ≡ ok tt

    -- A document that is read as a request for a start was made from it.
    read_start :
        (b : Json J) (q : StartRoundRequest) → as_start_request J b ≡ some q → b ≡ start_request q
    read_start (start_request q') q e = cc
    read_start _ q e = cc

    locations_keep :
        (a : Ambient J) (m : Method) (body : Option (Json J)) (s : TaskProvisioner J)
        → (serve J rejected a m (some Route.get_main_locations) body s).1 ≡ s
    unfolding serve
    locations_keep a get_method body s = refl
    locations_keep a post_method body s = refl

    -- A session holds a task after a request only if it did before, or if the request is such a start.
    pub serve_gains :
        IsTransactional J
        → (r : Arrival J) (s : TaskProvisioner J)
        → Holds J t sid (serve J rejected r.ambient r.method r.route r.body s).1
        → Holds J t sid s ⊎ Started r s
    unfolding serve
    serve_gains L r s h = by_route r.route refl h
      where
        by_route :
            (route : Option Route)
            → r.route ≡ route
            → Holds J t sid (serve J rejected r.ambient r.method route r.body s).1
            → Holds J t sid s ⊎ Started r s
        by_route none at h = inl h
        by_route (some Route.create_session) at h =
            elim (post_endpoint_gains (as_create_request J) (handle_create_session J r.ambient) _
              r.method r.body s h) [
                | inl before ↦ inl before
                | inr (q, b, m, sent, e, after) ↦ inl (creation_gains J t sid r.ambient q s after)
              ]
        by_route (some Route.end_session) at h =
            elim (post_endpoint_gains (as_session_id J) (handle_end_session J) _ r.method r.body s
              h) [
                | inl before ↦ inl before
                | inr (q, b, m, sent, e, after) ↦ inl (end_gains J t sid q s after)
              ]
        by_route (some Route.start_round) at h =
            elim (post_endpoint_gains (as_start_request J) (handle_start_round J r.ambient) _
              r.method r.body s h) [
                | inl before ↦ inl before
                | inr (q, b, m, sent, e, after) ↦ elim (start_gains J t sid L r.ambient q s after) [
                  | inl before ↦ inl before
                  | inr (asked, accepted) ↦ inr (record {
                    request = q;
                    posted = m;
                    to_start = at;
                    sent = sent ∙ ap some (read_start b q e);
                    asked = asked;
                    accepted = accepted;
                  })
                ]
              ]
        by_route (some Route.get_vdaf_parameter) at h =
            elim (post_endpoint_gains (as_vdaf_request J) (handle_get_vdaf_parameter J) _ r.method
              r.body s h) [
                | inl before ↦ inl before
                | inr (q, b, m, sent, e, after) ↦ inl (keeps J t sid s _ (query_keeps J q s) after)
              ]
        by_route (some Route.get_main_locations) at h =
            inl (keeps J t sid s _ (locations_keep r.ambient r.method r.body s) h)

    -- One of the requests, served after those before it, is an accepted start of the task's round in
    -- the session.
    pub record Accepted (rs : List (Arrival J)) (s : TaskProvisioner J) : Type 0 where
      pub before : List (Arrival J)
      pub request : Arrival J
      pub after : List (Arrival J)
      pub split : rs ≡ before ++ request ∷ after
      pub accepted : Started request (served J rejected before s)

    -- Under transactions that commit or roll back: whatever requests the server has served, a session
    -- that holds a task held it before, or one of the requests was a posted start of a round with
    -- this session's id and a text that decodes to this task's id, which was accepted in the state
    -- that the requests before it had left.
    pub served_gains :
        IsTransactional J
        → (rs : List (Arrival J)) (s : TaskProvisioner J) → Holds J t sid (served J rejected rs s)
        → Holds J t sid s ⊎ Accepted rs s
    served_gains L [] s h = inl h
    served_gains L (r ∷ rs) s h =
        let s' = (serve J rejected r.ambient r.method r.route r.body s).1 in
        elim (served_gains L rs s' h) [
          | inr a ↦ inr (record {
            before = r ∷ a.before;
            request = a.request;
            after = a.after;
            split = ap (λ x. r ∷ x) a.split;
            accepted = a.accepted;
          })
          | inl held ↦ elim (serve_gains L r s held) [
            | inl held' ↦ inl held'
            | inr now ↦
                inr (record { before = []; request = r; after = rs; split = refl; accepted = now })
          ]
        ]
