-- ===== src/System/Finish.antt =====
-- An ended session, on both aggregators.
use dpsa4fl.Base.{ap, ℕ, ◌≡◌, ◌≢◌, subst, inl, inr, arith, none, some, ok}
use dpsa4fl.External.{Janus}
use dpsa4fl.Manager.Messages.{Ambient}
use dpsa4fl.Manager.Provisioner.State.{TaskProvisioner, session_of}
use dpsa4fl.Manager.Provisioner.Handlers.{handle_end_session}
use dpsa4fl.Manager.Provisioner.Sessions.{handle_end_session_cases}
use dpsa4fl.Manager.Http.{post_method, Route, Response, status_ok, session_id}
use dpsa4fl.Manager.Network.{Network}
use dpsa4fl.Manager.Server.{serve}
use dpsa4fl.Manager.Server.Answers.{endpoint-eq-ok}
use dpsa4fl.Manager.Consumer.{JanusManagerClient, post, end_session}
use dpsa4fl.System.World.{
  Party, leader_party, helper_party, World, Deployment, found_at, next, after, deployed, LeadsTo,
}
use dpsa4fl.System.Delivery.{post-Served}
use dpsa4fl.System.Both.{end_session-Both}

module _ (J : Janus) (d : Deployment J) (services : Network J (World J)) where
  -- One provisioner before and after: it held the session, and does no longer; its datastore is the
  -- same.
  pub record HasEnded (sid : ℕ) (s s' : TaskProvisioner J) : Type 0 where
    pub held : session_of J sid s ≢ none
    pub gone : session_of J sid s' ≡ none
    pub datastore : s'.datastore ≡ s.datastore

  handled-HasEnded :
      (sid : ℕ) (s s' : TaskProvisioner J)
      → handle_end_session J sid s ≡ (ok tt, s')
      → HasEnded sid s s'
  handled-HasEnded sid s s' h = elim (handle_end_session_cases J sid s) [
    | inr (missing, refused, same) ↦ ground arith
    | inl (held, done, others, store, keys) ↦ record {
      held = held;
      gone = ground (arith, others sid);
      datastore = ground arith;
    }
  ]

  serve_ended :
      (a : Ambient J) (sid : ℕ) (s s' : TaskProvisioner J) (r : Response J)
      → serve J d.rejected a post_method (some Route.end_session) (some (session_id sid)) s
        ≡ (ok r, s')
      → r.status ≡ status_ok
      → handle_end_session J sid s ≡ (ok tt, s')
  unfolding serve
  serve_ended a sid s s' r h is_200 =
      let (done, ran, body) = endpoint-eq-ok J (handle_end_session J sid) _ s s' r h is_200 in ran

  ended_at :
      (p : Party) (base : J.Url)
      → LeadsTo J d base p
      → (sid : ℕ) (r : Response J) (w w' : World J)
      → post J (deployed J d services) base Route.end_session (session_id sid) w ≡ (ok r, w')
      → r.status ≡ status_ok
      → (s' : TaskProvisioner J) × HasEnded sid (found_at J d p w) s' × (w' ≡ after J p s' w)
  ended_at p base l sid r w w' h is_200 =
      let sv = post-Served J d services base p l Route.end_session (session_id sid) w w' r h in
      (
        sv.state,
        handled-HasEnded sid (found_at J d p w) sv.state
            (serve_ended (w.ambient w.tick) sid (found_at J d p w) sv.state r sv.run is_200),
        sv.world,
      )

  -- Where the addresses of the managers lead to them: if `end_session` of the manager client
  -- succeeds, over a network that may lose messages, with managers that may serve any requests of
  -- others before each exchange, then each aggregator held the session when it was asked, does so
  -- no longer, and did not change its datastore for it.
  pub end_session_agrees :
      (c : JanusManagerClient J)
      → LeadsTo J d c.location.manager.external_leader leader_party
      → LeadsTo J d c.location.manager.external_helper helper_party
      → (sid : ℕ) (w w' : World J) → end_session J (deployed J d services) c sid w ≡ (ok tt, w')
      → HasEnded sid (found_at J d leader_party w) w'.leader
        × HasEnded sid (found_at J d helper_party (next J w)) w'.helper
  end_session_agrees c to_leader to_helper sid w w' h =
      let both = end_session-Both J d services c sid w w' h in
      let (l, lead, world) =
        ended_at leader_party c.location.manager.external_leader to_leader sid both.lead_answer w
          both.between both.lead_posted both.lead_ok in
      let (k, help, world') =
        ended_at helper_party c.location.manager.external_helper to_helper sid both.help_answer
          both.between w' both.help_posted both.help_ok in
      let leaders : l ≡ w'.leader = ground arith in
      let helpers : k ≡ w'.helper = ground arith in
      let before : found_at J d helper_party both.between ≡ found_at J d helper_party (next J w) =
        ap (found_at J d helper_party) world in
      (
        subst (HasEnded sid (found_at J d leader_party w)) leaders lead,
        subst (HasEnded sid (found_at J d helper_party (next J w))) helpers
            (subst (λ x. HasEnded sid x k) before help),
      )
