-- ===== src/System/Collision.antt =====
-- A creation for which the leader draws an id that is in use.
use dpsa4fl.Base.{ℕ, suc, ◌≡◌, refl, arith, some, ok, err, Error, error_from_helper, session_exists}
use dpsa4fl.External.{Janus}
use dpsa4fl.Manager.Messages.{Ambient, random_u16, CreateTrainingSessionRequest}
use dpsa4fl.Manager.Provisioner.State.{TrainingSession, TaskProvisioner, session_of}
use dpsa4fl.Manager.Provisioner.Handlers.{handle_create_session}
use dpsa4fl.Manager.Provisioner.Create.{Decoded, made_session}
use dpsa4fl.Manager.Provisioner.Race.{create_taken, create_drawn_overwrites}
use dpsa4fl.Manager.Http.{
  post_method, Route, status_ok, status_bad_request, create_request, create_response, error_text,
}
use dpsa4fl.Manager.Network.{Network}
use dpsa4fl.Manager.Server.{serve}
use dpsa4fl.Manager.Consumer.{JanusManagerClient, create_session, created_id, make_request}
use dpsa4fl.System.World.{
  leader_party, helper_party, World, Deployment, found_at, next, after, deployed, LeadsTo,
}
use dpsa4fl.System.Delivered.{BothDelivered, post_delivered}
use dpsa4fl.System.Progress.{help_request, lead_request, serve_creates}

module _ (J : Janus) (d : Deployment J) (services : Network J (World J)) where
  serve_refuses :
      (a : Ambient J) (q : CreateTrainingSessionRequest J) (s : TaskProvisioner J) (e : Error)
      → handle_create_session J a q s ≡ (err e, s)
      → serve J d.rejected a post_method (some Route.create_session) (some (create_request q)) s
        ≡ (ok (record { status = status_bad_request; body = error_text e }), s)
  unfolding serve
  serve_refuses a q s e h = ground arith

  -- The leader gives an id, and the helper refuses it.
  refused_by_helper :
      (c : JanusManagerClient J)
      → LeadsTo J d c.location.manager.external_leader leader_party
      → LeadsTo J d c.location.manager.external_helper helper_party
      → (a : Ambient J) (w : World J) (sid : ℕ) (l : TaskProvisioner J) (e : Error)
      → BothDelivered J d services w
      → handle_create_session J
          (w.ambient w.tick)
          (lead_request J d services c a)
          (found_at J d leader_party w)
        ≡ (ok sid, l)
      → handle_create_session J
          (w.ambient (suc w.tick))
          (help_request J d services c a sid)
          (found_at J d helper_party (next J w))
        ≡ (err e, (found_at J d helper_party (next J w)))
      → create_session J (deployed J d services) c a w ≡ (
        err (error_from_helper status_bad_request),
        after J helper_party (found_at J d helper_party (next J w)) (after J leader_party l w),
      )
  unfolding create_session created_id
  refused_by_helper c to_leader to_helper a w sid l e (first, second) lead help =
      let q = lead_request J d services c a in
      let q' = help_request J d services c a sid in
      ground (
        arith,
        post_delivered J d services c.location.manager.external_leader leader_party to_leader
            Route.create_session (create_request q) w
            (record {
              status = status_ok;
              body = create_response (record { training_session_id = sid });
            })
            l first
            (serve_creates J d services (w.ambient w.tick) q (found_at J d leader_party w) l sid
              lead),
        post_delivered J d services c.location.manager.external_helper helper_party to_helper
            Route.create_session (create_request q') (after J leader_party l w)
            (record { status = status_bad_request; body = error_text e })
            (found_at J d helper_party (next J w)) second
            (serve_refuses (w.ambient (suc w.tick)) q' (found_at J d helper_party (next J w)) e
              help),
      )

  -- Where the addresses of the managers lead to them and both exchanges are delivered: if the leader
  -- draws an id under which both managers hold a session already when they are asked, and the first request decodes there,
  -- then `create_session` of the manager client fails with the refusal of the helper, but the leader's
  -- session is replaced by the new one, while the helper keeps the old one.
  pub create_session_collides :
      (c : JanusManagerClient J)
      → LeadsTo J d c.location.manager.external_leader leader_party
      → LeadsTo J d c.location.manager.external_helper helper_party
      → (a : Ambient J) (w : World J) (lead help : TrainingSession J) → BothDelivered J d services w
      → session_of J (random_u16 J (w.ambient w.tick)) (found_at J d leader_party w) ≡ some lead
      → session_of J (random_u16 J (w.ambient w.tick)) (found_at J d helper_party (next J w))
        ≡ some help
      → (p : Decoded J
          (w.ambient w.tick)
          (lead_request J d services c a)
          (found_at J d leader_party w))
      → let (answer, w') = create_session J (deployed J d services) c a w in
        (answer ≡ err (error_from_helper status_bad_request))
        × (session_of J (random_u16 J (w.ambient w.tick)) w'.leader
            ≡ some (
                made_session J
                  (w.ambient w.tick)
                  (lead_request J d services c a)
                  (found_at J d leader_party w)
                  p))
        × (session_of J (random_u16 J (w.ambient w.tick)) w'.helper ≡ some help)
  unfolding make_request
  create_session_collides c to_leader to_helper a w lead help arrive lead_at help_at p =
      let q = lead_request J d services c a in
      let sid = random_u16 J (w.ambient w.tick) in
      let (drawn, stored) =
        create_drawn_overwrites J (w.ambient w.tick) q (found_at J d leader_party w) lead refl
          lead_at p in
      let taken =
        create_taken J (w.ambient (suc w.tick)) (help_request J d services c a sid)
          (found_at J d helper_party (next J w)) sid help refl help_at in
      let failed =
        refused_by_helper c to_leader to_helper a w sid
          (handle_create_session J (w.ambient w.tick) q (found_at J d leader_party w)).1
          (session_exists sid) arrive (ground (arith, drawn)) taken in
      rw failed (refl, stored, help_at)
