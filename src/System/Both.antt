-- ===== src/System/Both.antt =====
-- The calls of the controller's client that ask both managers for the same thing, the leader first.
use dpsa4fl.Base.{
  ◌>>=◌, ℕ, ℕ_discrete, ◌≡◌, inl, inr, arith, Outcome, ok, Error, Outcome-cases, start_failed,
  end_failed,
}
use dpsa4fl.External.{Janus}
use dpsa4fl.Manager.Messages.{Ambient}
use dpsa4fl.Manager.Http.{Route, Json, Response, status_ok, start_request, session_id}
use dpsa4fl.Manager.Network.{Network}
use dpsa4fl.Manager.Consumer.{JanusManagerClient, post, both_ok, start_round, end_session}
use dpsa4fl.System.World.{World, Deployment, deployed}

module _ (J : Janus) (d : Deployment J) (services : Network J (World J)) where
  -- Both managers were sent the document, and both answered 200.
  pub record Both (c : JanusManagerClient J) (route : Route) (body : Json J) (w w' : World J)
      : Type 0 where
    pub lead_answer : Response J
    pub help_answer : Response J
    pub between : World J
    pub lead_posted :
        post J (deployed J d services) c.location.manager.external_leader route body w
        ≡ (ok lead_answer, between)
    pub help_posted :
        post J (deployed J d services) c.location.manager.external_helper route body between
        ≡ (ok help_answer, w')
    pub lead_ok : lead_answer.status ≡ status_ok
    pub help_ok : help_answer.status ≡ status_ok

  both_ok-eq-ok :
      {A : Type 0} (c : JanusManagerClient J) (m n : ℕ) (a x : A) (e : Error) (w w' : World J)
      → both_ok J (deployed J d services) c m n a e w ≡ (ok x, w')
      → (m ≡ status_ok) × (n ≡ status_ok) × (a ≡ x) × (w ≡ w')
  unfolding both_ok
  both_ok-eq-ok c m n a x e w w' h = elim (ℕ_discrete m status_ok) [
    | no refused ↦ ground arith
    | yes lead ↦ elim (ℕ_discrete n status_ok) [
      | no refused ↦ ground arith
      | yes help ↦ ground arith
    ]
  ]

  -- Two requests, one after the other, and the test of their statuses.
  two_posts-Both :
      {A : Type 0} (c : JanusManagerClient J) (route : Route) (body : Json J) (a x : A)
      (e : ℕ → ℕ → Error) (w w' : World J)
      → (do
        l ← post J (deployed J d services) c.location.manager.external_leader route body
        h ← post J (deployed J d services) c.location.manager.external_helper route body
        both_ok J (deployed J d services) c l.status h.status a (e l.status h.status))
          w
        ≡ (ok x, w')
      → (a ≡ x) × Both c route body w w'
  two_posts-Both c route body a x e w w' h = elim (Outcome-cases lead.0) [
    | inr failed ↦ ground arith
    | inl (l, e1) ↦ elim (Outcome-cases help.0) [
      | inr failed ↦ ground arith
      | inl (k, e2) ↦
          let (lead_ok, help_ok, same, worlds) =
            both_ok-eq-ok c l.status k.status a x (e l.status k.status) help.1 w' (ground arith) in
          (
            same,
            record {
              lead_answer = l;
              help_answer = k;
              between = lead.1;
              lead_posted = ground arith;
              help_posted = ground arith;
              lead_ok = lead_ok;
              help_ok = help_ok;
            },
          )
    ]
  ]
    where
      lead : Outcome (Response J) × World J
      lead = post J (deployed J d services) c.location.manager.external_leader route body w

      help : Outcome (Response J) × World J
      help = post J (deployed J d services) c.location.manager.external_helper route body lead.1

  pub start_round-Both :
      (c : JanusManagerClient J) (a : Ambient J) (sid : ℕ) (w w' : World J) (t : J.TaskId)
      → start_round J (deployed J d services) c a sid w ≡ (ok t, w')
      → (a.task_id ≡ t)
        × Both c Route.start_round
            (start_request (record {
              training_session_id = sid;
              task_id_encoded = J.encode_base64 (J.get_encoded a.task_id);
            }))
            w
            w'
  unfolding start_round
  start_round-Both c a sid w w' t h =
      two_posts-Both c Route.start_round _ a.task_id t start_failed w w' h

  pub end_session-Both :
      (c : JanusManagerClient J) (sid : ℕ) (w w' : World J)
      → end_session J (deployed J d services) c sid w ≡ (ok tt, w')
      → Both c Route.end_session (session_id sid) w w'
  unfolding end_session
  end_session-Both c sid w w' h = (two_posts-Both c Route.end_session _ tt tt end_failed w w' h).1
