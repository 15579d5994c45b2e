-- ===== src/System/Lifecycle.antt =====
-- From the controller's calls to a client's submission: the text that the controller gets for its
-- round is all that the client needs to know of it.
use dpsa4fl.Base.{
  contains-push_self, [], ◌∷◌, ℕ, ◌≡◌, arith, some, ok, Text, length, ◌>>=◌, Action, false,
}
use dpsa4fl.External.{Janus}
use dpsa4fl.External.Laws.{IsCodec, IsTransactional}
use dpsa4fl.Core.Tag.{VecFixedAny, get_tag, elements}
use dpsa4fl.Core.Types.{MainLocations, CommonStateParametrization}
use dpsa4fl.Core.Helpers.{task_id_to_string, task_id_from_string-task_id_to_string}
use dpsa4fl.Manager.Messages.{Ambient, time_precision}
use dpsa4fl.Manager.Network.{Network}
use dpsa4fl.Manager.Consumer.{start_round}
use dpsa4fl.Controller.{ControllerStateImmut, Running, api_create_session, api_start_round}
use dpsa4fl.Controller.Calls.{creation_called, start-StartCalled}
use dpsa4fl.Client.{
  RoundSettings, new_round_settings, Session, init_state, valid_state, api_submit_with,
}
use dpsa4fl.System.World.{leader_party, helper_party, World, Deployment, deployed, LeadsTo}
use dpsa4fl.System.Rounds.{done, started_one}
use dpsa4fl.System.Rely.{Spared}
use dpsa4fl.System.Delivered.{BothDelivered, visited}
use dpsa4fl.System.Exclusive.{Exclusive}
use dpsa4fl.System.Client.{set_for, client_submits}

module _ (J : Janus) where
  -- What a client reads from the text of a task id.
  abbrev pub settings_for : J.TaskId → RoundSettings J
  settings_for t = record {
    task_id = t;
    time_precision = J.duration_from_seconds time_precision;
    should_request_hpke_config = false;
  }

  -- What the controller returned as text is what `task_id_to_string` makes.
  text_read :
      {S : Type 0}
      → IsCodec J
      → (t : J.TaskId) (s : S)
      → new_round_settings J (J.task_id_text t) s ≡ (ok (settings_for t), s)
  unfolding new_round_settings task_id_to_string
  text_read codec t s =
      rw (codec.text-encode t) (ground (arith, task_id_from_string-task_id_to_string J codec t s))

  module _ (d : Deployment J) (services : Network J (World J)) where
    -- A client that has got the text of a task id: it reads it and submits.
    abbrev pub submit_text :
        Text
        → (CommonStateParametrization J → VecFixedAny)
        → Action (Session J (deployed J d services)) (Unit {0})
    submit_text x get_data = do
      rs ← new_round_settings J x
      api_submit_with J (deployed J d services) rs get_data

    -- Where the addresses of the managers lead to them, base64 and task ids decode to what was
    -- encoded, the text of a task id is its encoding, and transactions commit or roll back: the
    -- controller's `api_create_session` has returned an id and its next call, `api_start_round`, a
    -- text. A client that knows the managers' addresses and this text reads its round settings from
    -- it and submits for the first time. If both managers have the same addresses of the aggregators
    -- in their configuration, the client's four queries are delivered, no request of others since
    -- the creation creates or ends the session or starts a round in it, and the drawn task id is new,
    -- so that no other session held it at the creation and no request of others starts a round with
    -- it in another session, and no session id was stored twice at the creation; and if what the
    -- client makes of the controller's parameter has that parameter's length and fixed-point type,
    -- and the janus client for the task at those addresses is built and uploads it, then the
    -- submission succeeds, it has uploaded just that, and the client keeps the controller's
    -- parameter.
    pub started_submits :
        IsCodec J
        → (L : IsTransactional J) → (i : ControllerStateImmut J)
        → let c = i.permanent.janus_tasks_client in
          let net = deployed J d services in
          LeadsTo J d c.location.manager.external_leader leader_party
          → LeadsTo J d c.location.manager.external_helper helper_party
          → (a b : Ambient J) (s s₁ s₂ : Running J net) (sid : ℕ) (x : Text)
          → api_create_session J net i a s ≡ (ok sid, s₁)
          → Spared J d services sid s₁.world
          → api_start_round J net i b s₁ ≡ (ok x, s₂)
          → (m : MainLocations J) (http : J.HttpClient) → J.default_http_client ≡ some http
          → s₂.world.leader.config.main_locations ≡ m
          → s₂.world.helper.config.main_locations ≡ m
          → let w3 = visited J d services s₂.world in
            let rs = settings_for b.task_id in
            Spared J d services sid s₂.world
            → Spared J d services sid w3
            → Exclusive J d services sid b.task_id L s₁.world
            → BothDelivered J d services s₂.world
            → BothDelivered J d services w3
            → (get_data : CommonStateParametrization J → VecFixedAny) (w4 w5 : World J)
            → let v = get_data (set_for J d services c m http rs).parametrization in
              (vdaf : J.Prio3 (get_tag v)) (client : services.Client (get_tag v))
              → length (elements v) ≡ c.vdaf_parameter.gradient_len
              → get_tag v ≡ c.vdaf_parameter.submission_type
              → J.new_fixedpoint_boundedl2_vec_sum (get_tag v) 2 c.vdaf_parameter.gradient_len
                ≡ some vdaf
              → services.build
                  (get_tag v)
                  b.task_id
                  m.external_leader
                  m.external_helper
                  (J.duration_from_seconds 1)
                  vdaf
                  (visited J d services w3)
                ≡ (some client, w4)
              → services.upload (get_tag v) client (elements v) w4 ≡ (some tt, w5)
              → submit_text x get_data
                  (record { state = init_state c.location.manager; world = s₂.world })
                ≡ (
                  ok tt,
                  record { state = valid_state (set_for J d services c m http rs); world = w5 },
                )
    started_submits codec L i to_leader to_helper a b s s₁ s₂ sid x made spare begun m http
          has_client lead_at help_at spared spared' exclusive arrive arrive' get_data w4 w5 vdaf
          client len tag prio built sent =
        let c = i.permanent.janus_tasks_client in
        let net = deployed J d services in
        let client_start : Session J net = record {
          state = init_state c.location.manager;
          world = s₂.world;
        } in
        let (created, remembered) = creation_called J net i a s s₁ sid made in
        let start = start-StartCalled J net i b s₁ s₂ x begun in
        let started : start_round J net c b sid s₁.world ≡ (ok b.task_id, s₂.world) =
          cc (start.called, start.session, remembered) in
        rw (start.text) (
          ground (
            arith,
            text_read codec b.task_id client_start,
            client_submits J d services codec L c to_leader to_helper a s.world s₁.world s₂.world
                sid (b.task_id ∷ []) (settings_for b.task_id) created
                (started_one b spare started done)
                (contains-push_self J.task_id_discrete [] b.task_id) m http has_client lead_at
                help_at spared spared' exclusive arrive arrive' get_data w4 w5 vdaf client len tag
                prio built sent,
          ))
