-- ===== src/System/Create.antt =====
-- A created session, on both aggregators.
pub mod Calls
pub mod Sessions
pub use dpsa4fl.System.Create.Sessions.{SameSession}
use dpsa4fl.System.Create.Sessions.{made_session-SameSession}
use dpsa4fl.System.Create.Calls.{created_at, create_session-Created}
use dpsa4fl.Base.{
  sym, refl, ap, Outcome-cases, error_from_helper, error_from_leader, [], List, ◌∙◌, subst, Error,
  inr, inl, Option-cases, ℕ, ℕ_discrete, ◌≡◌, arith, Option, none, some, Outcome, ok,
}
use dpsa4fl.External.{Janus}
use dpsa4fl.External.Laws.{IsCodec}
use dpsa4fl.Manager.Messages.{Ambient, CreateTrainingSessionRequest}
use dpsa4fl.Manager.Provisioner.State.{
  session_of-insert_session_self, insert_session, TaskProvisioner, TrainingSession, session_of,
}
use dpsa4fl.Manager.Provisioner.Handlers.{handle_create_session}
use dpsa4fl.Manager.Provisioner.Create.{
  Decoded, made_session, Chosen, handle_create_session-Creates,
}
use dpsa4fl.Manager.Http.{
  post_method, Route, Response, status_ok, create_request, as_create_response,
}
use dpsa4fl.Manager.Server.{serve}
use dpsa4fl.Manager.Server.Answers.{endpoint-eq-ok}
use dpsa4fl.Manager.Network.{Network}
use dpsa4fl.Manager.Consumer.{
  post, JanusManagerClient, create_session, created_id, make_request, draw_verify_key,
}
use dpsa4fl.System.World.{
  Party, leader_party, helper_party, World, Deployment, found_at, next, at, after, deployed,
  LeadsTo,
}
use dpsa4fl.System.Delivery.{post-Served}

module _ (J : Janus) (d : Deployment J) (services : Network J (World J)) where
  -- Where the addresses of the managers lead to them and base64 decodes what it encoded: if
  -- `create_session` of the manager client returns an id, over a network that may lose messages,
  -- with managers that may serve any requests of others before each exchange, then each aggregator
  -- holds a session under that id, which the helper had free when it was asked, and the two
  -- sessions have the roles leader and helper, the drawn verify key, the same tokens, the client's
  -- collector configuration and vdaf parameter, and no tasks; the collector token is read back from
  -- the bytes of the client's, and the leader token is made from the base64 text of the client's.
  pub create_session_agrees :
      IsCodec J
      → (c : JanusManagerClient J) → LeadsTo J d c.location.manager.external_leader leader_party
      → LeadsTo J d c.location.manager.external_helper helper_party
      → (a : Ambient J) (w w' : World J) (sid : ℕ)
      → create_session J (deployed J d services) c a w ≡ (ok sid, w')
      → (lead : TrainingSession J) × (help : TrainingSession J) × (session_of J sid w'.leader
          ≡ some lead)
        × (session_of J sid w'.helper ≡ some help)
        × (session_of J sid (found_at J d helper_party (next J w)) ≡ none)
        × SameSession J d services c (draw_verify_key J (deployed J d services) c a) lead help
  unfolding create_session make_request
  create_session_agrees codec c to_leader to_helper a w w' sid h =
      let r = create_session-Created J d services c a w w' sid h in
      let key = draw_verify_key J (deployed J d services) c a in
      let q = make_request J (deployed J d services) c key J.leader none in
      let q' = make_request J (deployed J d services) c key J.helper (some sid) in
      let lead =
        created_at J d services leader_party c.location.manager.external_leader to_leader q c
          error_from_leader r.lead_answer w r.w1 r.w2 sid r.lead_posted r.lead_id in
      let help =
        created_at J d services helper_party c.location.manager.external_helper to_helper q' c
          error_from_helper r.help_answer r.w2 r.w3 w' sid r.help_posted r.help_id in
      (
        made_session J (w.ambient w.tick) q (found_at J d leader_party w) lead.decoded,
        made_session J (r.w2.ambient r.w2.tick) q' (found_at J d helper_party r.w2) help.decoded,
        subst
            (λ x.
              session_of J sid (at J leader_party x)
              ≡ some
                  (made_session J (w.ambient w.tick) q (found_at J d leader_party w) lead.decoded))
            (sym (help.world ∙ ap (after J helper_party help.state) lead.world)) lead.stored,
        subst
            (λ x.
              session_of J sid (at J helper_party x)
              ≡ some (
                  made_session J (r.w2.ambient r.w2.tick) q' (found_at J d helper_party r.w2)
                    help.decoded))
            (sym help.world) help.stored,
        subst (λ x. session_of J sid (found_at J d helper_party x) ≡ none) lead.world help.chosen.1,
        made_session-SameSession J d services codec c key (w.ambient w.tick)
            (r.w2.ambient r.w2.tick) (found_at J d leader_party w) (found_at J d helper_party r.w2)
            none (some sid) lead.decoded help.decoded,
      )
