-- ===== src/System/Create/Calls.antt =====
-- The calls of a creation that returned an id, and what a party did for one.
use dpsa4fl.Base.{
  ap, Outcome-cases, error_from_helper, error_from_leader, ◌∙◌, subst, Error, inr, inl,
  Option-cases, ℕ, ℕ_discrete, ◌≡◌, arith, none, some, Outcome, ok,
}
use dpsa4fl.External.{Janus}
use dpsa4fl.Manager.Messages.{Ambient, CreateTrainingSessionRequest}
use dpsa4fl.Manager.Provisioner.State.{
  session_of-insert_session_self, insert_session, TaskProvisioner, session_of,
}
use dpsa4fl.Manager.Provisioner.Handlers.{handle_create_session}
use dpsa4fl.Manager.Provisioner.Create.{
  Decoded, made_session, Chosen, handle_create_session-Creates,
}
use dpsa4fl.Manager.Http.{
  post_method, Route, Response, status_ok, create_request, as_create_response,
}
use dpsa4fl.Manager.Server.{serve}
use dpsa4fl.Manager.Server.Answers.{endpoint-eq-ok}
use dpsa4fl.Manager.Network.{Network}
use dpsa4fl.Manager.Consumer.{
  post, JanusManagerClient, create_session, created_id, make_request, draw_verify_key,
}
use dpsa4fl.System.World.{Party, World, Deployment, found_at, after, deployed, LeadsTo}
use dpsa4fl.System.Delivery.{post-Served}

module _ (J : Janus) (d : Deployment J) (services : Network J (World J)) where
  -- A creation that was answered with an id: the party's handler made the session.
  pub record CreatedAt (p : Party) (q : CreateTrainingSessionRequest J) (w : World J) (sid : ℕ)
      (w' : World J) : Type 0 where
    pub state : TaskProvisioner J
    pub decoded : Decoded J (w.ambient w.tick) q (found_at J d p w)
    pub chosen : Chosen J (w.ambient w.tick) q.training_session_id (found_at J d p w) sid
    pub stored :
        session_of J sid state
        ≡ some (made_session J (w.ambient w.tick) q (found_at J d p w) decoded)
    pub world : w' ≡ after J p state w

  pub serve_created :
      (a : Ambient J) (q : CreateTrainingSessionRequest J) (s s' : TaskProvisioner J)
      (r : Response J)
      → serve J d.rejected a post_method (some Route.create_session) (some (create_request q)) s
        ≡ (ok r, s')
      → r.status ≡ status_ok
      → (sid : ℕ) × (handle_create_session J a q s ≡ (ok sid, s'))
        × (as_create_response J r.body ≡ some (record { training_session_id = sid }))
  unfolding serve
  serve_created a q s s' r h is_200 =
      let (sid, ran, body) = endpoint-eq-ok J (handle_create_session J a q) _ s s' r h is_200 in
      (sid, ran, ap (as_create_response J) body)

  pub created_id-eq-ok :
      (c : JanusManagerClient J) (refused : ℕ → Error) (r : Response J) (w w' : World J) (sid : ℕ)
      → created_id J (deployed J d services) c refused r w ≡ (ok sid, w')
      → (r.status ≡ status_ok)
        × (as_create_response J r.body ≡ some (record { training_session_id = sid }))
        × (w' ≡ w)
  unfolding created_id
  created_id-eq-ok c refused r w w' sid h = elim (ℕ_discrete r.status status_ok) [
    | no refused_it ↦ ground arith
    | yes accepted ↦ elim (Option-cases (as_create_response J r.body)) [
      | inl e ↦ ground arith
      | inr (x, e) ↦ ground arith
    ]
  ]

  pub created_at :
      (p : Party) (base : J.Url)
      → LeadsTo J d base p
      → (q : CreateTrainingSessionRequest J) (c : JanusManagerClient J) (refused : ℕ → Error)
      → (r : Response J) (w w1 w2 : World J) (sid : ℕ)
      → post J (deployed J d services) base Route.create_session (create_request q) w ≡ (ok r, w1)
      → created_id J (deployed J d services) c refused r w1 ≡ (ok sid, w2)
      → CreatedAt p q w sid w2
  created_at p base l q c refused r w w1 w2 sid posted accepted =
      let sv =
        post-Served J d services base p l Route.create_session (create_request q) w w1 r posted in
      let (is_200, answered, same_world) = created_id-eq-ok c refused r w1 w2 sid accepted in
      let (sid', ran, body) =
        serve_created (w.ambient w.tick) q (found_at J d p w) sv.state r sv.run is_200 in
      let same_id : sid' ≡ sid = cc in
      elim (handle_create_session-Creates J (w.ambient w.tick) q (found_at J d p w)) [
        | inr (same, failed) ↦ ground arith
        | inl (dec, sid'', fits, e) ↦
            let ids : sid'' ≡ sid = cc in
            let states : insert_session J sid''
                  (made_session J (w.ambient w.tick) q (found_at J d p w) dec)
                  (record (found_at J d p w) { keyring = dec.keyring })
                ≡ sv.state =
              cc in
            record {
              state = sv.state;
              decoded = dec;
              chosen =
                  subst (Chosen J (w.ambient w.tick) q.training_session_id (found_at J d p w)) ids
                    fits;
              stored =
                  rw (← states, ← ids)
                    (session_of-insert_session_self J sid''
                      (made_session J (w.ambient w.tick) q (found_at J d p w) dec)
                      (record (found_at J d p w) { keyring = dec.keyring }));
              world = same_world ∙ sv.world;
            }
      ]

  -- The four calls of a creation that returned an id.
  pub record Created (c : JanusManagerClient J) (a : Ambient J) (w : World J) (sid : ℕ)
      (w' : World J) : Type 0 where
    pub lead_answer : Response J
    pub help_answer : Response J
    pub w1 : World J
    pub w2 : World J
    pub w3 : World J
    pub lead_posted :
        post J
          (deployed J d services)
          c.location.manager.external_leader
          Route.create_session
          (create_request (
            make_request J
              (deployed J d services)
              c
              (draw_verify_key J (deployed J d services) c a)
              J.leader
              none))
          w
        ≡ (ok lead_answer, w1)
    pub lead_id :
        created_id J (deployed J d services) c error_from_leader lead_answer w1 ≡ (ok sid, w2)
    pub help_posted :
        post J
          (deployed J d services)
          c.location.manager.external_helper
          Route.create_session
          (create_request (
            make_request J
              (deployed J d services)
              c
              (draw_verify_key J (deployed J d services) c a)
              J.helper
              (some sid)))
          w2
        ≡ (ok help_answer, w3)
    pub help_id :
        created_id J (deployed J d services) c error_from_helper help_answer w3 ≡ (ok sid, w')

  pub create_session-Created :
      (c : JanusManagerClient J) (a : Ambient J) (w w' : World J) (sid : ℕ)
      → create_session J (deployed J d services) c a w ≡ (ok sid, w')
      → Created c a w sid w'
  unfolding create_session
  create_session-Created c a w w' sid h = elim (Outcome-cases lead.0) [
    | inr failed ↦ ground arith
    | inl (lr, e1) ↦ elim (Outcome-cases (lead_id lr).0) [
      | inr failed ↦ ground arith
      | inl (lid, e2) ↦ elim (Outcome-cases (help lr lid).0) [
        | inr failed ↦ ground arith
        | inl (hr, e3) ↦ elim (Outcome-cases (help_id lr lid hr).0) [
          | inr failed ↦ ground arith
          | inl (hid, e4) ↦
              let (ids, ids', worlds) : (lid ≡ sid) × (hid ≡ sid) × ((help_id lr lid hr).1 ≡ w') =
                ground arith in
              record {
                lead_answer = lr;
                help_answer = hr;
                w1 = lead.1;
                w2 = (lead_id lr).1;
                w3 = (help lr lid).1;
                lead_posted = cc;
                lead_id = cc;
                help_posted = cc;
                help_id = cc;
              }
        ]
      ]
    ]
  ]
    where
      lead : Outcome (Response J) × World J
      lead =
          post J (deployed J d services) c.location.manager.external_leader Route.create_session
            (create_request (
              make_request J (deployed J d services) c
                (draw_verify_key J (deployed J d services) c a) J.leader none))
            w

      lead_id : Response J → Outcome ℕ × World J
      lead_id r = created_id J (deployed J d services) c error_from_leader r lead.1

      help : Response J → ℕ → Outcome (Response J) × World J
      help r id =
          post J (deployed J d services) c.location.manager.external_helper Route.create_session
            (create_request (
              make_request J (deployed J d services) c
                (draw_verify_key J (deployed J d services) c a) J.helper (some id)))
            (lead_id r).1

      help_id : Response J → ℕ → Response J → Outcome ℕ × World J
      help_id lr id r = created_id J (deployed J d services) c error_from_helper r (help lr id).1
