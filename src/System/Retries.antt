-- ===== src/System/Retries.antt =====
-- An end of a session that one manager does not hold: what becomes of it when the controller retries.
use dpsa4fl.Base.{
  ℕ, zero, suc, List, [], ◌∷◌, ◌≡◌, ◌∙◌, refl, ap, subst, ◌≢◌, inl, inr, arith, none, some, is_ok,
  false, Outcome-cases,
}
use dpsa4fl.External.{Janus}
use dpsa4fl.Manager.Messages.{Ambient}
use dpsa4fl.Manager.Provisioner.State.{TaskProvisioner, session_of}
use dpsa4fl.Manager.Provisioner.Sessions.{handle_end_session_cases}
use dpsa4fl.Manager.Http.{post_method, Route, session_id}
use dpsa4fl.Manager.Network.{Network}
use dpsa4fl.Manager.Server.{serve}
use dpsa4fl.Manager.Server.Rely.{Sparing}
use dpsa4fl.Manager.Consumer.{JanusManagerClient, post, both_ok, end_session}
use dpsa4fl.Controller.{ControllerStateImmut, Running, api_end_session}
use dpsa4fl.Controller.Session.{Call, ends, run, run_all}
use dpsa4fl.System.World.{
  Party, leader_party, helper_party, Fate, delivered, request_lost, answer_lost, World, Deployment,
  at, found_at, after, next, deliver, deployed, LeadsTo,
}
use dpsa4fl.System.Rely.{spared_at}
use dpsa4fl.System.Delivery.{post-deliver}
use dpsa4fl.System.Finish.{end_session_agrees}

module _ (J : Janus) (d : Deployment J) (services : Network J (World J)) (sid : ℕ) where
  -- A manager does not hold the session, and no request of others is about it.
  pub record IsLost (p : Party) (w : World J) : Type 0 where
    pub missing : session_of J sid (at J p w) ≡ none
    pub spared : (n : ℕ) → Sparing J sid (w.others n)

  -- A request for the end of a session that is not there changes nothing.
  serve_keeps :
      (a : Ambient J) (s : TaskProvisioner J)
      → session_of J sid s ≡ none
      → (serve J d.rejected a post_method (some Route.end_session) (some (session_id sid)) s).1 ≡ s
  unfolding serve
  serve_keeps a s gone = elim (handle_end_session_cases J sid s) [
    | inl (held, done, others, store, keys) ↦ absurd (held gone)
    | inr (missing, refused, same) ↦ same
  ]

  -- The world after an exchange with a party that was left as it was found.
  visited-IsLost :
      (p q : Party) (w : World J) (s : TaskProvisioner J)
      → IsLost p w
      → (session_of J sid (found_at J d q w) ≡ none → s ≡ found_at J d q w)
      → IsLost p (after J q s w)
  visited-IsLost leader_party helper_party w s h k = record {
    missing = h.missing;
    spared = h.spared;
  }
  visited-IsLost helper_party leader_party w s h k = record {
    missing = h.missing;
    spared = h.spared;
  }
  visited-IsLost leader_party leader_party w s h k =
      let found = spared_at J d services leader_party sid w (h.spared w.tick) ∙ h.missing in
      record { missing = ap (session_of J sid) (k found) ∙ found; spared = h.spared }
  visited-IsLost helper_party helper_party w s h k =
      let found = spared_at J d services helper_party sid w (h.spared w.tick) ∙ h.missing in
      record { missing = ap (session_of J sid) (k found) ∙ found; spared = h.spared }

  deliver-IsLost :
      (p q : Party) (w : World J)
      → IsLost p w
      → IsLost p (deliver J d q Route.end_session post_method (some (session_id sid)) w).1
  unfolding deliver
  deliver-IsLost p q w h = by_fate (w.fate w.tick) refl
    where
      after_exchange : World J
      after_exchange = (deliver J d q Route.end_session post_method (some (session_id sid)) w).1

      served_state : TaskProvisioner J
      served_state =
          (serve J d.rejected (w.ambient w.tick) post_method (some Route.end_session)
            (some (session_id sid)) (found_at J d q w)).1

      works : IsLost p (after J q served_state w)
      works =
          visited-IsLost p q w served_state h (serve_keeps (w.ambient w.tick) (found_at J d q w))

      by_fate : (f : Fate) → w.fate w.tick ≡ f → IsLost p after_exchange
      by_fate delivered e =
          let same : after J q served_state w ≡ after_exchange = ground arith in
          subst (IsLost p) same works
      by_fate request_lost e =
          let same : after J q (found_at J d q w) w ≡ after_exchange = ground arith in
          subst (IsLost p) same (visited-IsLost p q w (found_at J d q w) h (λ gone. refl))
      by_fate answer_lost e =
          let same : after J q served_state w ≡ after_exchange = ground arith in
          subst (IsLost p) same works

  post-IsLost :
      (p q : Party) (base : J.Url)
      → LeadsTo J d base q
      → (w : World J) → IsLost p w
      → IsLost p (post J (deployed J d services) base Route.end_session (session_id sid) w).1
  post-IsLost p q base l w h =
      let same : (deliver J d q Route.end_session post_method (some (session_id sid)) w).1
          ≡ (post J (deployed J d services) base Route.end_session (session_id sid) w).1 =
        ground (arith, post-deliver J d services base q l Route.end_session (session_id sid) w) in
      subst (IsLost p) same (deliver-IsLost p q w h)

  module _ (i : ControllerStateImmut J) where
    abbrev client : JanusManagerClient J
    client = i.permanent.janus_tasks_client

    module _ (to_leader : LeadsTo J d client.location.manager.external_leader leader_party)
        (to_helper : LeadsTo J d client.location.manager.external_helper helper_party) where
      end_session-IsLost :
          (p : Party) (w : World J)
          → IsLost p w
          → IsLost p (end_session J (deployed J d services) client sid w).1
      unfolding end_session both_ok
      end_session-IsLost p w h =
          let lead =
            post J (deployed J d services) client.location.manager.external_leader Route.end_session
              (session_id sid) w in
          let help =
            post J (deployed J d services) client.location.manager.external_helper Route.end_session
              (session_id sid) lead.1 in
          let ended = (end_session J (deployed J d services) client sid w).1 in
          let first =
            post-IsLost p leader_party client.location.manager.external_leader to_leader w h in
          let second =
            post-IsLost p helper_party client.location.manager.external_helper to_helper lead.1
              first in
          elim (Outcome-cases lead.0) [
            | inr failed ↦ let same : lead.1 ≡ ended = ground arith in subst (IsLost p) same first
            | inl (l, e) ↦ let same : help.1 ≡ ended = ground arith in subst (IsLost p) same second
          ]

      -- Such a call does not succeed.
      end_session_fails :
          (p : Party) (w : World J)
          → IsLost p w
          → is_ok (end_session J (deployed J d services) client sid w).0 ≡ false
      end_session_fails p w h =
          elim (Outcome-cases (end_session J (deployed J d services) client sid w).0) [
            | inr failed ↦ failed
            | inl (done, e) ↦
                let (lead, help) =
                  end_session_agrees J d services client to_leader to_helper sid w
                    (end_session J (deployed J d services) client sid w).1 (ground arith) in
                by_party p h lead.held help.held
          ]
        where
          by_party :
              (q : Party)
              → IsLost q w
              → session_of J sid (found_at J d leader_party w) ≢ none
              → session_of J sid (found_at J d helper_party (next J w)) ≢ none
              → is_ok (end_session J (deployed J d services) client sid w).0 ≡ false
          by_party leader_party g lead help =
              absurd
                (lead (spared_at J d services leader_party sid w (g.spared w.tick) ∙ g.missing))
          by_party helper_party g lead help = absurd (
              help (
                spared_at J d services helper_party sid (next J w) (g.spared (suc w.tick))
                ∙ g.missing))

      -- One call of the controller: it fails, and the controller remembers what it did.
      end_once :
          (p : Party) (s : Running J (deployed J d services))
          → s.mstate.round.training_session_id ≡ some sid
          → IsLost p s.world
          → let r = api_end_session J (deployed J d services) i s in
            (is_ok r.0 ≡ false) × (r.1.mstate ≡ s.mstate) × IsLost p r.1.world
      unfolding api_end_session
      end_once p s e h =
          let r = api_end_session J (deployed J d services) i s in
          let c = end_session J (deployed J d services) client sid s.world in
          let fails = end_session_fails p s.world h in
          let world : c.1 ≡ r.1.world = ground (arith, e, fails) in
          (
            ground (arith, e, fails),
            ground (arith, e, fails),
            subst (IsLost p) world (end_session-IsLost p s.world h),
          )

      -- Calls that end the session, one after the other.
      abbrev pub retries : ℕ → List (Call J (deployed J d services) i)
      retries zero = []
      retries (suc n) = ends ∷ retries n

      -- Where the addresses of the managers lead to them: if one of the two managers does not hold
      -- the session that the controller remembers, and no request of others creates or ends it or
      -- starts a round in it, then however often the controller has called `api_end_session`, and
      -- whatever messages the network has lost meanwhile, the next call fails too, and the controller
      -- remembers the session still.
      pub end_session_stuck :
          (p : Party) (s : Running J (deployed J d services))
          → s.mstate.round.training_session_id ≡ some sid
          → IsLost p s.world
          → (n : ℕ)
          → let s' = run_all J (deployed J d services) i (retries n) s in
            (is_ok (api_end_session J (deployed J d services) i s').0 ≡ false)
            × (s'.mstate ≡ s.mstate)
      unfolding run_all run
      end_session_stuck p s e h zero = ((end_once p s e h).0, refl)
      end_session_stuck p s e h (suc n) =
          let (failed, same, lost) = end_once p s e h in
          let s' = (api_end_session J (deployed J d services) i s).1 in
          let still : s'.mstate.round.training_session_id ≡ some sid =
            ap (λ x. x.round.training_session_id) same ∙ e in
          let (fails, keeps) = end_session_stuck p s' still lost n in (fails, keeps ∙ same)
