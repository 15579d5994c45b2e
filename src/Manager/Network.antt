-- ===== src/Manager/Network.antt =====
-- What the clients reach over the network, on a state `W` of the world outside: `reqwest`, and the
-- janus client and collector.
use dpsa4fl.Base.{ℕ, List, Option, Action, http_error, ok_or}
use dpsa4fl.External.{Janus}
use dpsa4fl.Core.Tag.{FixedTypeTag}
use dpsa4fl.Manager.Http.{Request, Response}

pub record Network (J : Janus) (W : Type 0) : Type 1 where
  -- one HTTP exchange; `none` is an error of `reqwest`, after which the server may have worked or not
  pub exchange : Request J → W → Option (Response J) × W
  -- janus_collector
  pub Collector : Type 0
  pub Collection : Type 0
  pub new_collector :
      (tag : FixedTypeTag)
      → J.TaskId
      → J.Url
      → J.AuthenticationToken
      → J.HpkeKeypair
      → J.Prio3 tag
      → Option Collector
  pub collect : Collector → J.Interval → W → Option Collection × W
  -- janus_client
  pub Client : FixedTypeTag → Type 0
  pub build :
      (tag : FixedTypeTag)
      → J.TaskId
      → J.Url
      → J.Url
      → J.Duration
      → J.Prio3 tag
      → W
      → Option (Client tag) × W
  pub upload : (tag : FixedTypeTag) → Client tag → List ℕ → W → Option (Unit {0}) × W

module _ {J : Janus} {W : Type 0} (net : Network J W) where
  -- `.send().await?`
  abbrev pub send : Request J → Action W (Response J)
  send q w = let (r, w') = net.exchange q w in ok_or r http_error w'
