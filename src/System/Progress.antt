-- ===== src/System/Progress.antt =====
-- The calls of the controller's client of which every exchange is delivered.
use dpsa4fl.Base.{
  ℕ_discrete, if_neg, ◌∙◌, ℕ, suc, ◌≡◌, ◌≢◌, inl, inr, arith, none, some, ok, end_failed,
  start_failed,
}
use dpsa4fl.External.{Janus}
use dpsa4fl.Manager.Messages.{CreateTrainingSessionRequest, Ambient, StartRoundRequest}
use dpsa4fl.Manager.Provisioner.State.{TaskProvisioner, session_of}
use dpsa4fl.Manager.Provisioner.Handlers.{
  handle_create_session, handle_start_round, handle_end_session,
}
use dpsa4fl.Manager.Provisioner.Sessions.{handle_end_session_cases}
use dpsa4fl.Manager.Http.{
  create_response, create_request, post_method, Route, Response, status_ok, start_request,
  start_response, session_id, unit_document,
}
use dpsa4fl.Manager.Network.{Network}
use dpsa4fl.Manager.Server.{serve}
use dpsa4fl.Manager.Consumer.{
  draw_verify_key, make_request, created_id, create_session, JanusManagerClient, start_round,
  end_session,
}
use dpsa4fl.System.World.{
  leader_party, helper_party, World, Deployment, found_at, next, after, deployed, LeadsTo,
}
use dpsa4fl.System.Delivered.{BothDelivered, post_delivered, two_posts_delivered}
use dpsa4fl.System.Round.{asks}

module _ (J : Janus) (d : Deployment J) (services : Network J (World J)) where
  pub serve_creates :
      (a : Ambient J) (q : CreateTrainingSessionRequest J) (s s' : TaskProvisioner J) (sid : ℕ)
      → handle_create_session J a q s ≡ (ok sid, s')
      → serve J d.rejected a post_method (some Route.create_session) (some (create_request q)) s ≡ (
        ok (record {
          status = status_ok;
          body = create_response (record { training_session_id = sid });
        }),
        s',
      )
  unfolding serve
  serve_creates a q s s' sid h = ground arith

  serve_ends :
      (a : Ambient J) (sid : ℕ) (s s' : TaskProvisioner J)
      → handle_end_session J sid s ≡ (ok tt, s')
      → serve J d.rejected a post_method (some Route.end_session) (some (session_id sid)) s
        ≡ (ok (record { status = status_ok; body = unit_document }), s')
  unfolding serve
  serve_ends a sid s s' h = ground arith

  serve_starts :
      (a : Ambient J) (q : StartRoundRequest) (s s' : TaskProvisioner J)
      → handle_start_round J a q s ≡ (ok tt, s')
      → serve J d.rejected a post_method (some Route.start_round) (some (start_request q)) s
        ≡ (ok (record { status = status_ok; body = start_response }), s')
  unfolding serve
  serve_starts a q s s' h = ground arith

  -- The session is gone, and the other sessions and the datastore are as they were.
  abbrev pub IsEnded : ℕ → TaskProvisioner J → TaskProvisioner J → Type 0
  IsEnded sid s s' =
      (session_of J sid s' ≡ none)
      × ((other : ℕ) → other ≢ sid → session_of J other s' ≡ session_of J other s)
      × (s'.datastore ≡ s.datastore)

  module _ (c : JanusManagerClient J)
      (to_leader : LeadsTo J d c.location.manager.external_leader leader_party)
      (to_helper : LeadsTo J d c.location.manager.external_helper helper_party) where
    -- Where the addresses of the managers lead to them: if both exchanges of `start_round` of the
    -- manager client are delivered, and both managers, in the states in which the exchanges find
    -- them after requests of others, accept the start of the drawn task id with what they draw,
    -- then the call returns that id and leaves the managers as their handlers do.
    pub start_round_delivered :
        (a : Ambient J) (sid : ℕ) (w : World J) (l h : TaskProvisioner J)
        → BothDelivered J d services w
        → handle_start_round J
            (w.ambient w.tick)
            (asks J d services sid a.task_id)
            (found_at J d leader_party w)
          ≡ (ok tt, l)
        → handle_start_round J
            (w.ambient (suc w.tick))
            (asks J d services sid a.task_id)
            (found_at J d helper_party (next J w))
          ≡ (ok tt, h)
        → start_round J (deployed J d services) c a sid w
          ≡ (ok a.task_id, after J helper_party h (after J leader_party l w))
    unfolding start_round
    start_round_delivered a sid w l h arrive lead help =
        let q = asks J d services sid a.task_id in
        two_posts_delivered J d services c to_leader to_helper Route.start_round (start_request q)
          start_response a.task_id start_failed w l h arrive
          (serve_starts (w.ambient w.tick) q (found_at J d leader_party w) l lead)
          (serve_starts (w.ambient (suc w.tick)) q (found_at J d helper_party (next J w)) h help)

    -- A session that is held is ended: it is gone, and every other one is as it was.
    held_ends :
        (sid : ℕ) (s : TaskProvisioner J)
        → session_of J sid s ≢ none
        → let s' = (handle_end_session J sid s).1 in
          (handle_end_session J sid s ≡ (ok tt, s')) × IsEnded sid s s'
    held_ends sid s held = elim (handle_end_session_cases J sid s) [
      | inl (found, done, others, store, keys) ↦ (
        ground arith,
        (
          ground (arith, others sid),
          λ other ne. others other ∙ if_neg (ℕ_discrete other sid) ne _ _,
          store,
        ),
      )
      | inr (missing, refused, same) ↦ absurd (held missing)
    ]

    -- Where the addresses of the managers lead to them: if both exchanges of `end_session` of the
    -- manager client are delivered and both managers hold the session when they are asked, after
    -- requests of others, the call succeeds and leaves the managers as their handlers do: on both the
    -- session is gone, and all other sessions and the datastore are as they were found.
    pub end_session_delivered :
        (sid : ℕ) (w : World J)
        → BothDelivered J d services w
        → session_of J sid (found_at J d leader_party w) ≢ none
        → session_of J sid (found_at J d helper_party (next J w)) ≢ none
        → let l = (handle_end_session J sid (found_at J d leader_party w)).1 in
          let h = (handle_end_session J sid (found_at J d helper_party (next J w))).1 in
          (end_session J (deployed J d services) c sid w
            ≡ (ok tt, after J helper_party h (after J leader_party l w)))
          × IsEnded sid (found_at J d leader_party w) l
          × IsEnded sid (found_at J d helper_party (next J w)) h
    unfolding end_session
    end_session_delivered sid w arrive lead help =
        let s = found_at J d leader_party w in
        let s' = found_at J d helper_party (next J w) in
        let l = (handle_end_session J sid s).1 in
        let h = (handle_end_session J sid s').1 in
        let (lead_runs, lead_ended) = held_ends sid s lead in
        let (help_runs, help_ended) = held_ends sid s' help in
        (
          two_posts_delivered J d services c to_leader to_helper Route.end_session (session_id sid)
              unit_document tt end_failed w l h arrive
              (serve_ends (w.ambient w.tick) sid s l lead_runs)
              (serve_ends (w.ambient (suc w.tick)) sid s' h help_runs),
          lead_ended,
          help_ended,
        )

  -- The two requests of `create_session` of the manager client.
  abbrev pub lead_request : JanusManagerClient J → Ambient J → CreateTrainingSessionRequest J
  lead_request c a =
      make_request J (deployed J d services) c (draw_verify_key J (deployed J d services) c a)
        J.leader none

  abbrev pub help_request : JanusManagerClient J → Ambient J → ℕ → CreateTrainingSessionRequest J
  help_request c a sid =
      make_request J (deployed J d services) c (draw_verify_key J (deployed J d services) c a)
        J.helper (some sid)

  -- Where the addresses of the managers lead to them: if both exchanges of `create_session` of the
  -- manager client are delivered, the leader accepts the first request under an id and the helper
  -- the second one under the same id, in the states in which the exchanges find them after requests
  -- of others, then the call returns that id and leaves the managers as their handlers do.
  pub create_session_delivered :
      (c : JanusManagerClient J)
      → LeadsTo J d c.location.manager.external_leader leader_party
      → LeadsTo J d c.location.manager.external_helper helper_party
      → (a : Ambient J) (w : World J) (sid : ℕ) (l h : TaskProvisioner J)
      → BothDelivered J d services w
      → handle_create_session J (w.ambient w.tick) (lead_request c a) (found_at J d leader_party w)
        ≡ (ok sid, l)
      → handle_create_session J
          (w.ambient (suc w.tick))
          (help_request c a sid)
          (found_at J d helper_party (next J w))
        ≡ (ok sid, h)
      → create_session J (deployed J d services) c a w
        ≡ (ok sid, after J helper_party h (after J leader_party l w))
  unfolding create_session created_id
  create_session_delivered c to_leader to_helper a w sid l h (first, second) lead help =
      let w1 = after J leader_party l w in
      let r : Response J = record {
        status = status_ok;
        body = create_response (record { training_session_id = sid });
      } in
      ground (
        arith,
        post_delivered J d services c.location.manager.external_leader leader_party to_leader
            Route.create_session (create_request (lead_request c a)) w r l first
            (serve_creates (w.ambient w.tick) (lead_request c a) (found_at J d leader_party w) l sid
              lead),
        post_delivered J d services c.location.manager.external_helper helper_party to_helper
            Route.create_session (create_request (help_request c a sid)) w1 r h second
            (serve_creates (w.ambient (suc w.tick)) (help_request c a sid)
              (found_at J d helper_party (next J w)) h sid help),
      )
