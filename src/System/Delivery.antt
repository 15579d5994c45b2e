-- ===== src/System/Delivery.antt =====
-- What a call of a deployed manager does: one exchange with the party at its address.
use dpsa4fl.Base.{◌≡◌, refl, arith, Option, none, some, Outcome, ok, err, panic, ok_or, http_error}
use dpsa4fl.External.{Janus}
use dpsa4fl.Manager.Provisioner.State.{TaskProvisioner}
use dpsa4fl.Manager.Http.{Method, get_method, post_method, Route, Json, Response}
use dpsa4fl.Manager.Server.{serve}
use dpsa4fl.Manager.Network.{Network}
use dpsa4fl.Manager.Consumer.{post, get}
use dpsa4fl.System.World.{
  answer_lost, request_lost, Fate, Party, World, Deployment, found_at, after, deliver, exchange,
  deployed, LeadsTo, delivered,
}

module _ (J : Janus) (d : Deployment J) (services : Network J (World J)) where
  pub post-deliver :
      (base : J.Url) (p : Party)
      → LeadsTo J d base p
      → (route : Route) (body : Json J) (w : World J)
      → post J (deployed J d services) base route body w
        ≡ (let (r, w') = deliver J d p route post_method (some body) w in ok_or r http_error w')
  unfolding post exchange
  post-deliver base p l route body w = ground (arith, l.joined route, l.resolved route)

  pub get-deliver :
      (base : J.Url) (p : Party)
      → LeadsTo J d base p
      → (route : Route) (w : World J)
      → get J (deployed J d services) base route w
        ≡ (let (r, w') = deliver J d p route get_method none w in ok_or r http_error w')
  unfolding get exchange
  get-deliver base p l route w = ground (arith, l.joined route, l.resolved route)

  -- An answer came from the party's server, and the world is the one after it.
  pub record Served (p : Party) (route : Route) (m : Method) (body : Option (Json J)) (w : World J)
      (r : Response J) (w' : World J) : Type 0 where
    pub state : TaskProvisioner J
    pub run :
        serve J d.rejected (w.ambient w.tick) m (some route) body (found_at J d p w) ≡ (ok r, state)
    pub world : w' ≡ after J p state w

  pub deliver-Served :
      (p : Party) (route : Route) (m : Method) (body : Option (Json J)) (w w' : World J)
      (r : Response J)
      → deliver J d p route m body w ≡ (some r, w')
      → Served p route m body w r w'
  unfolding deliver
  deliver-Served p route m body w w' r h = by_fate (w.fate w.tick) refl
    where
      result : Outcome (Response J) × TaskProvisioner J
      result = serve J d.rejected (w.ambient w.tick) m (some route) body (found_at J d p w)

      by_result :
          w.fate w.tick ≡ delivered
          → (x : Outcome (Response J)) → result.0 ≡ x
          → Served p route m body w r w'
      by_result e (ok x) q = record { state = result.1; run = ground arith; world = ground arith }
      by_result e (err x) q = ground arith
      by_result e (panic x) q = ground arith

      by_fate : (f : Fate) → w.fate w.tick ≡ f → Served p route m body w r w'
      by_fate delivered e = by_result e result.0 refl
      by_fate request_lost e = ground arith
      by_fate answer_lost e = ground arith

  pub post-Served :
      (base : J.Url) (p : Party)
      → LeadsTo J d base p
      → (route : Route) (body : Json J) (w w' : World J) (r : Response J)
      → post J (deployed J d services) base route body w ≡ (ok r, w')
      → Served p route post_method (some body) w r w'
  post-Served base p l route body w w' r h =
      deliver-Served p route post_method (some body) w w' r
        (ground (arith, post-deliver base p l route body w))
