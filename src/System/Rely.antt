-- ===== src/System/Rely.antt =====
-- Requests of others that spare a session between the exchanges of a call.
use dpsa4fl.Base.{ℕ, suc, ◌≡◌}
use dpsa4fl.External.{Janus}
use dpsa4fl.Manager.Provisioner.State.{session_of}
use dpsa4fl.Manager.Network.{Network}
use dpsa4fl.Manager.Server.Rely.{Sparing, served_spares}
use dpsa4fl.System.World.{Party, World, Deployment, at, found_at}

module _ (J : Janus) (d : Deployment J) (services : Network J (World J)) where
  -- None of the requests of others that reach a manager before one of the next two exchanges is about
  -- the session.
  abbrev pub Spared : ℕ → World J → Type 0
  Spared sid w = Sparing J sid (w.others w.tick) × Sparing J sid (w.others (suc w.tick))

  -- What a session that is spared is found as.
  pub spared_at :
      (p : Party) (sid : ℕ) (w : World J)
      → Sparing J sid (w.others w.tick)
      → session_of J sid (found_at J d p w) ≡ session_of J sid (at J p w)
  spared_at p sid w h = served_spares J d.rejected sid (w.others w.tick) (at J p w) h
