-- ===== src/System/Setup.antt =====
-- A client that is set up for a round, after the controller has created the session and started it.
use dpsa4fl.Base.{contains, true, List, ap, ℕ, ◌≡◌, ok}
use dpsa4fl.External.{Janus}
use dpsa4fl.External.Laws.{IsCodec, IsTransactional}
use dpsa4fl.Core.Types.{Locations}
use dpsa4fl.Manager.Messages.{Ambient}
use dpsa4fl.Manager.Network.{Network}
use dpsa4fl.Manager.Consumer.{JanusManagerClient, create_session}
use dpsa4fl.Client.{get_parametrization}
use dpsa4fl.System.World.{
  leader_party, helper_party, World, Deployment, found_at, next, deployed, LeadsTo,
}
use dpsa4fl.System.Rounds.{Rounds}
use dpsa4fl.System.Exclusive.{Exclusive, leader-IsOnly, helper-IsOnly, Rounds-Exclusive}
use dpsa4fl.System.Rely.{Spared}
use dpsa4fl.System.Queries.{agreed_delivered, holder_answers}
use dpsa4fl.System.InRound.{InRound, Rounds-InRound, Spared-InRound}
use dpsa4fl.System.Delivered.{BothDelivered, visited}

module _ (J : Janus) (d : Deployment J) (services : Network J (World J)) where
  -- The two queries of a client for a round.
  pub round_queried :
      IsCodec J
      → (L : IsTransactional J) (c : JanusManagerClient J) (l : Locations J)
      → LeadsTo J d l.manager.external_leader leader_party
      → LeadsTo J d l.manager.external_helper helper_party
      → (sid : ℕ) (t : J.TaskId) (w : World J)
      → InRound J d services c sid t
          (found_at J d leader_party w)
          (found_at J d helper_party (next J w))
      → Exclusive J d services sid t L w
      → BothDelivered J d services w
      → get_parametrization J (deployed J d services) t l w
        ≡ (ok (record { location = l; vdaf_parameter = c.vdaf_parameter }), visited J d services w)
  round_queried codec L c l to_leader to_helper sid t w r exclusive arrive =
      let lead = leader-IsOnly J d services sid t L w exclusive in
      let help = helper-IsOnly J d services sid t L w exclusive in
      agreed_delivered J d services l to_leader to_helper t w c.vdaf_parameter arrive
        (rw (← r.lead_parameter) (
          holder_answers J d services codec sid t (found_at J d leader_party w) r.lead r.at_leader
            r.lead_holds lead.nodup lead.only))
        (rw (← r.help_parameter) (
          holder_answers J d services codec sid t (found_at J d helper_party (next J w)) r.help
            r.at_helper r.help_holds help.nodup help.only))

  -- Where the addresses of the managers lead to them, base64 and task ids decode to what was encoded,
  -- and transactions commit or roll back: once the controller has created a session and started
  -- rounds in it, a client of any of these rounds whose two queries are delivered takes the vdaf
  -- parameter that the controller has. The network may have lost messages before, and both managers
  -- may have served any requests of others, before the session was created and, if none of them
  -- creates or ends this session or starts a round in it, since then. The round's task id is new to
  -- both managers: when the session has just been created no other session holds it, no session id
  -- is stored twice, and no request of others starts a round with this id in another session.
  pub client_takes_parameter :
      IsCodec J
      → (L : IsTransactional J) (c : JanusManagerClient J)
      → LeadsTo J d c.location.manager.external_leader leader_party
      → LeadsTo J d c.location.manager.external_helper helper_party
      → (a : Ambient J) (w w1 w2 : World J) (sid : ℕ) (ts : List J.TaskId) (t : J.TaskId)
      → create_session J (deployed J d services) c a w ≡ (ok sid, w1)
      → Rounds J d services c sid w1 ts w2
      → contains J.task_id_discrete ts t ≡ true
      → Spared J d services sid w2
      → Exclusive J d services sid t L w1
      → BothDelivered J d services w2
      → (get_parametrization J (deployed J d services) t c.location w2).0
        ≡ ok (record { location = c.location; vdaf_parameter = c.vdaf_parameter })
  client_takes_parameter codec L c to_leader to_helper a w w1 w2 sid ts t made rounds has spared
        exclusive arrive =
      ap (λ r. r.0)
        (round_queried codec L c c.location to_leader to_helper sid t w2
          (Spared-InRound J d services c sid t w2 spared (
            Rounds-InRound J d services codec L c to_leader to_helper a w w1 w2 sid ts t made rounds
              has))
          (Rounds-Exclusive J d services sid t L c to_leader to_helper w1 w2 ts rounds exclusive)
          arrive)
