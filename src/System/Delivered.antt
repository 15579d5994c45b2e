-- ===== src/System/Delivered.antt =====
-- Exchanges that are delivered, and what the caller gets from them.
use dpsa4fl.Base.{ℕ, suc, ◌≡◌, arith, some, ok, Error, ◌>>=◌}
use dpsa4fl.External.{Janus}
use dpsa4fl.Manager.Provisioner.State.{TaskProvisioner}
use dpsa4fl.Manager.Http.{post_method, Route, Json, Response, status_ok}
use dpsa4fl.Manager.Network.{Network}
use dpsa4fl.Manager.Server.{serve}
use dpsa4fl.Manager.Consumer.{JanusManagerClient, post, both_ok}
use dpsa4fl.System.World.{
  Party, leader_party, helper_party, World, Deployment, found_at, next, after, deliver, delivered,
  deployed, LeadsTo,
}
use dpsa4fl.System.Delivery.{post-deliver}

module _ (J : Janus) (d : Deployment J) (services : Network J (World J)) where
  -- Both exchanges that follow are delivered.
  abbrev pub BothDelivered : World J → Type 0
  BothDelivered w = (w.fate w.tick ≡ delivered) × (w.fate (suc w.tick) ≡ delivered)

  -- The world after two exchanges that changed nothing but served the requests of others.
  abbrev pub visited : World J → World J
  visited w =
      after J helper_party (found_at J d helper_party (next J w))
        (after J leader_party (found_at J d leader_party w) w)

  deliver_delivered :
      (p : Party) (route : Route) (body : Json J) (w : World J) (r : Response J)
      (s' : TaskProvisioner J)
      → w.fate w.tick ≡ delivered
      → serve J d.rejected
          (w.ambient w.tick)
          post_method
          (some route)
          (some body)
          (found_at J d p w)
        ≡ (ok r, s')
      → deliver J d p route post_method (some body) w ≡ (some r, after J p s' w)
  unfolding deliver
  deliver_delivered p route body w r s' arrives h = ground arith

  pub post_delivered :
      (base : J.Url) (p : Party)
      → LeadsTo J d base p
      → (route : Route) (body : Json J) (w : World J) (r : Response J) (s' : TaskProvisioner J)
      → w.fate w.tick ≡ delivered
      → serve J d.rejected
          (w.ambient w.tick)
          post_method
          (some route)
          (some body)
          (found_at J d p w)
        ≡ (ok r, s')
      → post J (deployed J d services) base route body w ≡ (ok r, after J p s' w)
  post_delivered base p l route body w r s' arrives h = ground (
    arith,
    post-deliver J d services base p l route body w,
    deliver_delivered p route body w r s' arrives h,
  )

  module _ (c : JanusManagerClient J)
      (to_leader : LeadsTo J d c.location.manager.external_leader leader_party)
      (to_helper : LeadsTo J d c.location.manager.external_helper helper_party) where
    -- The two managers, one after the other, both answering 200.
    pub two_posts_delivered :
        {A : Type 0} (route : Route) (body answer : Json J) (x : A) (e : ℕ → ℕ → Error)
        (w : World J) (l h : TaskProvisioner J)
        → BothDelivered w
        → serve J d.rejected
            (w.ambient w.tick)
            post_method
            (some route)
            (some body)
            (found_at J d leader_party w)
          ≡ (ok (record { status = status_ok; body = answer }), l)
        → serve J d.rejected
            (w.ambient (suc w.tick))
            post_method
            (some route)
            (some body)
            (found_at J d helper_party (next J w))
          ≡ (ok (record { status = status_ok; body = answer }), h)
        → (do
          r ← post J (deployed J d services) c.location.manager.external_leader route body
          q ← post J (deployed J d services) c.location.manager.external_helper route body
          both_ok J (deployed J d services) c r.status q.status x (e r.status q.status))
            w
          ≡ (ok x, after J helper_party h (after J leader_party l w))
    unfolding both_ok
    two_posts_delivered route body answer x e w l h (first, second) lead help = ground (
      arith,
      post_delivered c.location.manager.external_leader leader_party to_leader route body w
          (record { status = status_ok; body = answer }) l first lead,
      post_delivered c.location.manager.external_helper helper_party to_helper route body
          (after J leader_party l w) (record { status = status_ok; body = answer }) h second help,
    )
