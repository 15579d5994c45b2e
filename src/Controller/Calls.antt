-- ===== src/Controller/Calls.antt =====
-- What a call of the controller that returns has got from the manager client.
use dpsa4fl.Base.{ℕ, ℕ_discrete, ◌≡◌, inl, inr, arith, some, ok, Text, Outcome-cases, Option-cases}
use dpsa4fl.External.{Janus}
use dpsa4fl.Manager.Messages.{Ambient}
use dpsa4fl.Manager.Http.{Route, start_request, status_ok}
use dpsa4fl.Manager.Network.{Network}
use dpsa4fl.Manager.Consumer.{JanusManagerClient, post, both_ok, create_session, start_round}
use dpsa4fl.Controller.{ControllerStateImmut, Running, api_create_session, api_start_round}

module _ (J : Janus) {W : Type 0} (net : Network J W) where
  -- A start that returns gives the id that it drew.
  start_round_drawn :
      (c : JanusManagerClient J) (a : Ambient J) (sid : ℕ) (w w' : W) (t : J.TaskId)
      → start_round J net c a sid w ≡ (ok t, w')
      → a.task_id ≡ t
  unfolding start_round both_ok
  start_round_drawn c a sid w w' t h =
      let body = start_request (record {
        training_session_id = sid;
        task_id_encoded = J.encode_base64 (J.get_encoded a.task_id);
      }) in
      let lead = post J net c.location.manager.external_leader Route.start_round body w in
      let help = post J net c.location.manager.external_helper Route.start_round body lead.1 in
      elim (Outcome-cases lead.0) [
        | inr failed ↦ ground arith
        | inl (l, e) ↦ elim (Outcome-cases help.0) [
          | inr failed ↦ ground arith
          | inl (k, e') ↦ elim (ℕ_discrete l.status status_ok) [
            | no refused ↦ ground arith
            | yes lead_ok ↦ elim (ℕ_discrete k.status status_ok) [
              | no refused ↦ ground arith
              | yes help_ok ↦ ground arith
            ]
          ]
        ]
      ]

  module _ (i : ControllerStateImmut J) where
    -- A session that was created is remembered.
    pub creation_called :
        (a : Ambient J) (s s' : Running J net) (sid : ℕ)
        → api_create_session J net i a s ≡ (ok sid, s')
        → (create_session J net i.permanent.janus_tasks_client a s.world ≡ (ok sid, s'.world))
          × (s'.mstate.round.training_session_id ≡ some sid)
    unfolding api_create_session
    creation_called a s s' sid h =
        elim (Outcome-cases (create_session J net i.permanent.janus_tasks_client a s.world).0) [
          | inr failed ↦ ground arith
          | inl (made, e) ↦ (ground arith, ground arith)
        ]

    -- A round that was started is one of the session, with the drawn id, which is remembered.
    pub record StartCalled (a : Ambient J) (s s' : Running J net) (x : Text) : Type 0 where
      pub sid : ℕ
      pub session : s.mstate.round.training_session_id ≡ some sid
      pub called :
          start_round J net i.permanent.janus_tasks_client a sid s.world ≡ (ok a.task_id, s'.world)
      pub text : x ≡ J.task_id_text a.task_id
      pub task : s'.mstate.round.task_id ≡ some a.task_id

    pub start-StartCalled :
        (a : Ambient J) (s s' : Running J net) (x : Text)
        → api_start_round J net i a s ≡ (ok x, s')
        → StartCalled a s s' x
    unfolding api_start_round
    start-StartCalled a s s' x h = elim (Option-cases s.mstate.round.training_session_id) [
      | inl e ↦ ground arith
      | inr (sid, e) ↦
          elim (Outcome-cases (start_round J net i.permanent.janus_tasks_client a sid s.world).0) [
            | inr failed ↦ ground arith
            | inl (t, e') ↦
                let drawn : a.task_id ≡ t =
                  start_round_drawn i.permanent.janus_tasks_client a sid s.world
                    (start_round J net i.permanent.janus_tasks_client a sid s.world).1 t
                    (ground arith) in
                record {
                  sid = sid;
                  session = e;
                  called = ground (arith, drawn);
                  text = ground (arith, drawn);
                  task = ground (arith, drawn);
                }
          ]
    ]
