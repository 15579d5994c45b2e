-- ===== src/System/World.antt =====
-- The world: two provisioners, what each exchange draws and how it fares, the requests of others that
-- reach a party before it, and the count of exchanges. The two parties share no state, so that a
-- request of others counts where the party is next asked.
use dpsa4fl.Base.{List, ◌≡◌, ℕ, suc, Option, none, some, Outcome, ok, err, panic}
use dpsa4fl.External.{Janus}
use dpsa4fl.Manager.Messages.{Ambient}
use dpsa4fl.Manager.Provisioner.State.{TaskProvisioner}
use dpsa4fl.Manager.Http.{Method, Route, Json, Request, Response, path}
use dpsa4fl.Manager.Server.{Rejection, serve}
use dpsa4fl.Manager.Server.Steps.{Arrival, served}
use dpsa4fl.Manager.Network.{Network}

pub data Party : Type 0 where
  leader_party : Party
  helper_party : Party

-- How an exchange fares: it arrives and is answered, or the request is lost, or the answer is.
pub data Fate : Type 0 where
  delivered : Fate
  request_lost : Fate
  answer_lost : Fate

module _ (J : Janus) where
  pub record World : Type 0 where
    pub leader : TaskProvisioner J
    pub helper : TaskProvisioner J
    pub ambient : ℕ → Ambient J
    pub fate : ℕ → Fate
    pub others : ℕ → List (Arrival J)
    pub tick : ℕ

  abbrev pub at : Party → World → TaskProvisioner J
  at leader_party w = w.leader
  at helper_party w = w.helper

  -- The world after an exchange that left the party in this state.
  abbrev pub after : Party → TaskProvisioner J → World → World
  after leader_party s w = record w { leader = s; tick = suc w.tick }
  after helper_party s w = record w { helper = s; tick = suc w.tick }

  -- Where addresses lead, and what `warp` answers to what it rejects.
  pub record Deployment : Type 0 where
    pub resolve : J.Url → Option (Party × Route)
    pub rejected : Rejection → Response J

  -- The answer of a server that may panic: the connection breaks then.
  abbrev pub answer : Outcome (Response J) → Option (Response J)
  answer (ok r) = some r
  answer (err e) = none
  answer (panic p) = none

  -- The world one exchange later.
  abbrev pub next : World → World
  next w = record w { tick = suc w.tick }

  module _ (d : Deployment) where
    -- The state in which the exchange finds the party: the requests of others have been served.
    abbrev pub found_at : Party → World → TaskProvisioner J
    found_at p w = served J d.rejected (w.others w.tick) (at p w)

    abbrev answered :
        Party → Route → Method → Option (Json J) → World → Outcome (Response J) × TaskProvisioner J
    answered p route m body w =
        serve J d.rejected (w.ambient w.tick) m (some route) body (found_at p w)

    -- One exchange with a party.
    unfoldable pub deliver :
        Party → Route → Method → Option (Json J) → World → Option (Response J) × World
    deliver p route m body w = elim (w.fate w.tick) [
      | delivered ↦ let (r, s) = answered p route m body w in (answer r, after p s w)
      | request_lost ↦ (none, after p (found_at p w) w)
      | answer_lost ↦ let (r, s) = answered p route m body w in (none, after p s w)
    ]

    unfoldable pub exchange : Request J → World → Option (Response J) × World
    exchange q w = elim (d.resolve q.url) [
      | none ↦ (none, next w)
      | some (p, route) ↦ deliver p route q.method q.body w
    ]

    -- The network of the deployment. The janus client and collector stay those of `services`.
    abbrev pub deployed : Network J World → Network J World
    deployed services = record services { exchange = exchange }

  -- A manager's address: its paths can be joined, and lead to the party's endpoints.
  pub record LeadsTo (d : Deployment) (base : J.Url) (p : Party) : Type 0 where
    pub url : Route → J.Url
    pub joined : (route : Route) → J.join base (path route) ≡ some (url route)
    pub resolved : (route : Route) → d.resolve (url route) ≡ some (p, route)
