-- ===== src/System/Addresses.antt =====
-- The queries of a client for the addresses of the aggregators, delivered.
use dpsa4fl.Base.{◌≡◌, refl, arith, none, some, ok, []}
use dpsa4fl.External.{Janus}
use dpsa4fl.External.Laws.{IsTransactional}
use dpsa4fl.Core.Types.{MainLocations, ManagerLocations, MainLocations-discrete}
use dpsa4fl.Manager.Provisioner.State.{TaskProvisioner}
use dpsa4fl.Manager.Provisioner.Machine.{Machine, Reach}
use dpsa4fl.Manager.Http.{get_method, Route, Response, status_ok, locations}
use dpsa4fl.Manager.Network.{Network}
use dpsa4fl.Manager.Server.{serve}
use dpsa4fl.Manager.Server.Steps.{served-Reached}
use dpsa4fl.Manager.Launch.Runs.{Reach-config, serve_locations}
use dpsa4fl.Manager.Consumer.{get, get_main_locations}
use dpsa4fl.System.World.{
  Party, leader_party, helper_party, World, Deployment, at, found_at, next, after, deliver,
  delivered, deployed, LeadsTo,
}
use dpsa4fl.System.Delivery.{get-deliver}
use dpsa4fl.System.Delivered.{BothDelivered, visited}

module _ (J : Janus) (d : Deployment J) (services : Network J (World J)) where
  -- Requests of others do not change the configuration.
  pub found_config :
      IsTransactional J → (p : Party) (w : World J) → (found_at J d p w).config ≡ (at J p w).config
  found_config L p w =
      let start : Machine J = record { provisioner = at J p w; pending = [] } in
      Reach-config J L
        (served-Reached J start [] d.rejected (w.others w.tick) (at J p w) Reach.here)

  asked_delivered :
      (p : Party) (w : World J) (r : Response J) (s' : TaskProvisioner J)
      → w.fate w.tick ≡ delivered
      → serve J d.rejected
          (w.ambient w.tick)
          get_method
          (some Route.get_main_locations)
          none
          (found_at J d p w)
        ≡ (ok r, s')
      → deliver J d p Route.get_main_locations get_method none w ≡ (some r, after J p s' w)
  unfolding deliver
  asked_delivered p w r s' arrives h = ground arith

  addresses_delivered :
      (base : J.Url) (p : Party)
      → LeadsTo J d base p
      → (w : World J) (m : MainLocations J) → w.fate w.tick ≡ delivered
      → (found_at J d p w).config.main_locations ≡ m
      → get J (deployed J d services) base Route.get_main_locations w
        ≡ (ok (record { status = status_ok; body = locations m }), after J p (found_at J d p w) w)
  addresses_delivered base p l w m arrives here = rw (← here) (
      ground (
        arith,
        get-deliver J d services base p l Route.get_main_locations w,
        asked_delivered p w
            (record {
              status = status_ok;
              body = locations (found_at J d p w).config.main_locations;
            })
            (found_at J d p w) arrives
            (serve_locations J d.rejected (w.ambient w.tick) none (found_at J d p w)),
      ))

  -- Two queries that are delivered, to managers with the same addresses in their configuration.
  pub get_main_locations_delivered :
      (l : ManagerLocations J)
      → LeadsTo J d l.external_leader leader_party
      → LeadsTo J d l.external_helper helper_party
      → (w : World J) (m : MainLocations J) → BothDelivered J d services w
      → (found_at J d leader_party w).config.main_locations ≡ m
      → (found_at J d helper_party (next J w)).config.main_locations ≡ m
      → get_main_locations J (deployed J d services) l w ≡ (ok m, visited J d services w)
  unfolding get_main_locations
  get_main_locations_delivered l to_leader to_helper w m (first, second) lead help =
      let w1 = after J leader_party (found_at J d leader_party w) w in
      elim (MainLocations-discrete J m m) [
        | no differ ↦ absurd (differ refl)
        | yes same ↦ ground (
          arith,
          addresses_delivered l.external_leader leader_party to_leader w m first lead,
          addresses_delivered l.external_helper helper_party to_helper w1 m second help,
        )
      ]
