-- ===== src/System/Client.antt =====
-- A client, from the round that the controller has started to the gradient that it uploads.
use dpsa4fl.Base.{contains, true, List, ℕ, ℕ_discrete, ◌≡◌, ◌∙◌, ap, arith, some, ok, length}
use dpsa4fl.External.{Janus}
use dpsa4fl.External.Laws.{IsCodec, IsTransactional}
use dpsa4fl.Core.Tag.{FixedTypeTag-discrete, VecFixedAny, get_tag, elements}
use dpsa4fl.Core.Types.{MainLocations, Locations, CommonStateParametrization}
use dpsa4fl.Manager.Messages.{Ambient}
use dpsa4fl.Manager.Network.{Network}
use dpsa4fl.Manager.Consumer.{JanusManagerClient, create_session}
use dpsa4fl.Client.{
  RoundSettings, ClientState, valid_state, init_state, api_update_client_round_settings,
  api_submit_with, get_submission_result, get_janus_client, submit_state,
}
use dpsa4fl.System.World.{leader_party, helper_party, World, Deployment, next, deployed, LeadsTo}
use dpsa4fl.System.Rounds.{Rounds}
use dpsa4fl.System.Rely.{Spared}
use dpsa4fl.System.Delivered.{BothDelivered, visited}
use dpsa4fl.System.InRound.{InRound, Rounds-InRound, Spared-InRound}
use dpsa4fl.System.Setup.{round_queried}
use dpsa4fl.System.Exclusive.{Exclusive, visited-Exclusive, Rounds-Exclusive}
use dpsa4fl.System.Addresses.{found_config, get_main_locations_delivered}

module _ (J : Janus) (d : Deployment J) (services : Network J (World J)) where
  -- The client's state once it is set for a round of this controller.
  abbrev pub set_for :
      JanusManagerClient J → MainLocations J → J.HttpClient → RoundSettings J → ClientState J
  set_for c m http rs = record {
    parametrization = record {
      location = record { main = m; manager = c.location.manager };
      vdaf_parameter = c.vdaf_parameter;
    };
    permanent = record { http_client = http };
    round = record { config = record { settings = rs } };
  }

  -- A client that asks for the addresses and for the parameter, all delivered.
  set_up_delivered :
      IsCodec J
      → (L : IsTransactional J) (c : JanusManagerClient J)
      → LeadsTo J d c.location.manager.external_leader leader_party
      → LeadsTo J d c.location.manager.external_helper helper_party
      → (m : MainLocations J) (http : J.HttpClient) (rs : RoundSettings J) (sid : ℕ) (w : World J)
      → J.default_http_client ≡ some http
      → w.leader.config.main_locations ≡ m
      → w.helper.config.main_locations ≡ m
      → let w' = visited J d services w in
        InRound J d services c sid rs.task_id w.leader w.helper
        → Spared J d services sid w
        → Spared J d services sid w'
        → Exclusive J d services sid rs.task_id L w
        → BothDelivered J d services w
        → BothDelivered J d services w'
        → api_update_client_round_settings J
            (deployed J d services)
            rs
            (record { state = init_state c.location.manager; world = w })
          ≡ (
            ok tt,
            record { state = valid_state (set_for c m http rs); world = visited J d services w' },
          )
  unfolding api_update_client_round_settings
  set_up_delivered codec L c to_leader to_helper m http rs sid w has_client lead_at help_at r spared
        spared' exclusive arrive arrive' =
      let w' = visited J d services w in
      let l : Locations J = record { main = m; manager = c.location.manager } in
      let addresses =
        get_main_locations_delivered J d services c.location.manager to_leader to_helper w m arrive
          (ap (λ x. x.main_locations) (found_config J d services L leader_party w) ∙ lead_at)
          (ap (λ x. x.main_locations) (found_config J d services L helper_party (next J w))
            ∙ help_at) in
      let parameter =
        round_queried J d services codec L c l to_leader to_helper sid rs.task_id w'
          (Spared-InRound J d services c sid rs.task_id w' spared'
            (Spared-InRound J d services c sid rs.task_id w spared r))
          (visited-Exclusive J d services sid rs.task_id L w exclusive) arrive' in
      ground (arith, has_client, addresses, parameter)

  -- A gradient that fits, where the janus client does its part.
  fits_uploaded :
      (c : ClientState J) (v : VecFixedAny) (w w1 w2 : World J) (vdaf : J.Prio3 (get_tag v))
      (client : services.Client (get_tag v))
      → let p = c.parametrization.vdaf_parameter in
        let l = c.parametrization.location.main in
        length (elements v) ≡ p.gradient_len
        → get_tag v ≡ p.submission_type
        → J.new_fixedpoint_boundedl2_vec_sum (get_tag v) 2 p.gradient_len ≡ some vdaf
        → services.build
            (get_tag v)
            c.round.config.settings.task_id
            l.external_leader
            l.external_helper
            (J.duration_from_seconds 1)
            vdaf
            w
          ≡ (some client, w1)
        → services.upload (get_tag v) client (elements v) w1 ≡ (some tt, w2)
        → get_submission_result J (deployed J d services) c v w ≡ (ok tt, w2)
  unfolding get_submission_result get_janus_client
  fits_uploaded c v w w1 w2 vdaf client len tag made built sent =
      elim (ℕ_discrete (length (elements v)) c.parametrization.vdaf_parameter.gradient_len) [
        | no differs ↦ absurd (differs len)
        | yes same ↦
            elim (FixedTypeTag-discrete (get_tag v)
              c.parametrization.vdaf_parameter.submission_type) [
                | no differs ↦ absurd (differs tag)
                | yes same' ↦ ground (arith, made, built, sent)
              ]
      ]

  -- Where the addresses of the managers lead to them, base64 and task ids decode to what was encoded,
  -- and transactions commit or roll back: the controller has created a session and started rounds
  -- in it, and both managers have the same addresses of the aggregators in their configuration. A
  -- client that knows the managers' addresses and the task id of one of them submits for the first
  -- time; its four queries are delivered, no request of others since the creation creates or ends
  -- the session or starts a round in it, and the task id is new: no other session held it at the
  -- creation, no session id was stored twice, and no request of others starts a round with it in
  -- another session. If what the client makes of the controller's parameter has that parameter's
  -- length and fixed-point type, and the janus client for the task at those addresses is built and
  -- uploads it, then `api_submit_with` succeeds, it has uploaded just that, and the client keeps the
  -- controller's parameter.
  pub client_submits :
      IsCodec J
      → (L : IsTransactional J) (c : JanusManagerClient J)
      → LeadsTo J d c.location.manager.external_leader leader_party
      → LeadsTo J d c.location.manager.external_helper helper_party
      → (a : Ambient J) (w w1 w2 : World J) (sid : ℕ) (ts : List J.TaskId) (rs : RoundSettings J)
      → create_session J (deployed J d services) c a w ≡ (ok sid, w1)
      → Rounds J d services c sid w1 ts w2
      → contains J.task_id_discrete ts rs.task_id ≡ true
      → (m : MainLocations J) (http : J.HttpClient) → J.default_http_client ≡ some http
      → w2.leader.config.main_locations ≡ m
      → w2.helper.config.main_locations ≡ m
      → let w3 = visited J d services w2 in
        Spared J d services sid w2
        → Spared J d services sid w3
        → Exclusive J d services sid rs.task_id L w1
        → BothDelivered J d services w2
        → BothDelivered J d services w3
        → (get_data : CommonStateParametrization J → VecFixedAny) (w4 w5 : World J)
        → let p = (set_for c m http rs).parametrization in
          let v = get_data p in
          (vdaf : J.Prio3 (get_tag v)) (client : services.Client (get_tag v))
          → length (elements v) ≡ c.vdaf_parameter.gradient_len
          → get_tag v ≡ c.vdaf_parameter.submission_type
          → J.new_fixedpoint_boundedl2_vec_sum (get_tag v) 2 c.vdaf_parameter.gradient_len
            ≡ some vdaf
          → services.build
              (get_tag v)
              rs.task_id
              m.external_leader
              m.external_helper
              (J.duration_from_seconds 1)
              vdaf
              (visited J d services w3)
            ≡ (some client, w4)
          → services.upload (get_tag v) client (elements v) w4 ≡ (some tt, w5)
          → api_submit_with J
              (deployed J d services)
              rs
              get_data
              (record { state = init_state c.location.manager; world = w2 })
            ≡ (ok tt, record { state = valid_state (set_for c m http rs); world = w5 })
  unfolding api_submit_with submit_state
  client_submits codec L c to_leader to_helper a w w1 w2 sid ts rs made rounds has m http has_client
        lead_at help_at spared spared' exclusive arrive arrive' get_data w4 w5 vdaf client len tag
        prio built sent =
      let s = set_for c m http rs in
      ground (
        arith,
        set_up_delivered codec L c to_leader to_helper m http rs sid w2 has_client lead_at help_at
            (Rounds-InRound J d services codec L c to_leader to_helper a w w1 w2 sid ts rs.task_id
              made rounds has)
            spared spared'
            (Rounds-Exclusive J d services sid rs.task_id L c to_leader to_helper w1 w2 ts rounds
              exclusive)
            arrive arrive',
        fits_uploaded s (get_data s.parametrization)
            (visited J d services (visited J d services w2)) w4 w5 vdaf client len tag prio built
            sent,
      )
