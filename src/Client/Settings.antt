-- ===== src/Client/Settings.antt =====
-- Setting a client for a round, over any network: whom it asks, and what it takes from them.
use dpsa4fl.Base.{
  Option, none, some, Outcome, ◌≡◌, refl, ◌⊎◌, inl, inr, arith, ok, is_ok, false, Option-cases,
  Outcome-cases,
}
use dpsa4fl.External.{Janus}
use dpsa4fl.Core.Types.{
  Locations, MainLocations, MainLocations-discrete, ManagerLocations, VdafParameter-discrete,
  CommonStateParametrization,
}
use dpsa4fl.Manager.Http.{Route, Response, as_locations}
use dpsa4fl.Manager.Network.{Network}
use dpsa4fl.Manager.Consumer.{get_vdaf_parameter_from_task, get_main_locations, get, same_locations}
use dpsa4fl.Client.{
  RoundSettings, ClientState, ClientStatePu, valid_state, init_state, get_parametrization, Session,
  api_update_client_round_settings, update_state,
}

module _ (J : Janus) {W : Type 0} (net : Network J W) where
  -- The parameter that both managers gave for the task, one after the other.
  pub record Agreed (t : J.TaskId) (l : Locations J) (w : W) (p : CommonStateParametrization J)
      (w' : W) : Type 0 where
    pub between : W
    pub leader_gave :
        get_vdaf_parameter_from_task J net l.manager.external_leader t w
        ≡ (ok p.vdaf_parameter, between)
    pub helper_gave :
        get_vdaf_parameter_from_task J net l.manager.external_helper t between
        ≡ (ok p.vdaf_parameter, w')
    pub locations : p.location ≡ l

  -- A parametrization is taken only if both managers gave the same one for the task.
  get_parametrization-Agreed :
      (t : J.TaskId) (l : Locations J) (w w' : W) (p : CommonStateParametrization J)
      → get_parametrization J net t l w ≡ (ok p, w')
      → Agreed t l w p w'
  unfolding get_parametrization
  get_parametrization-Agreed t l w w' p h =
      elim (Outcome-cases (get_vdaf_parameter_from_task J net l.manager.external_leader t w).0) [
        | inr failed ↦ ground arith
        | inl (a, e) ↦
            elim (Outcome-cases
              (get_vdaf_parameter_from_task J net l.manager.external_helper t
                (get_vdaf_parameter_from_task J net l.manager.external_leader t w).1).0) [
                  | inr failed ↦ ground arith
                  | inl (b, e') ↦ elim (VdafParameter-discrete J a b) [
                    | no differ ↦ ground arith
                    | yes same ↦ record {
                      between =
                          (get_vdaf_parameter_from_task J net l.manager.external_leader t w).1;
                      leader_gave = ground arith;
                      helper_gave = ground arith;
                      locations = ground arith;
                    }
                  ]
                ]
      ]

  -- The addresses that both managers gave, one after the other.
  pub record Located (p : ManagerLocations J) (w : W) (m : MainLocations J) (w' : W) : Type 0 where
    pub between : W
    pub leader_answer : Response J
    pub helper_answer : Response J
    pub leader_asked :
        get J net p.external_leader Route.get_main_locations w ≡ (ok leader_answer, between)
    pub helper_asked :
        get J net p.external_helper Route.get_main_locations between ≡ (ok helper_answer, w')
    pub leader_gave : as_locations J leader_answer.body ≡ some m
    pub helper_gave : as_locations J helper_answer.body ≡ some m

  same_locations-eq-ok :
      (a b : Option (MainLocations J)) (m : MainLocations J) (w w' : W)
      → same_locations J net a b w ≡ (ok m, w')
      → (a ≡ some m) × (b ≡ some m) × (w ≡ w')
  unfolding same_locations
  same_locations-eq-ok none b m w w' h = ground arith
  same_locations-eq-ok (some a) none m w w' h = ground arith
  same_locations-eq-ok (some a) (some b) m w w' h = elim (MainLocations-discrete J a b) [
    | no differ ↦ ground arith
    | yes same ↦ ground (arith, same)
  ]

  get_main_locations-Located :
      (p : ManagerLocations J) (m : MainLocations J) (w w' : W)
      → get_main_locations J net p w ≡ (ok m, w')
      → Located p w m w'
  unfolding get_main_locations
  get_main_locations-Located p m w w' h =
      let lead = get J net p.external_leader Route.get_main_locations w in
      let help = get J net p.external_helper Route.get_main_locations lead.1 in
      elim (Outcome-cases lead.0) [
        | inr failed ↦ ground arith
        | inl (l, e) ↦ elim (Outcome-cases help.0) [
          | inr failed ↦ ground arith
          | inl (k, e') ↦
              let (gave, gave', same) =
                same_locations-eq-ok (as_locations J l.body) (as_locations J k.body) m help.1 w'
                  (ground arith) in
              record {
                between = lead.1;
                leader_answer = l;
                helper_answer = k;
                leader_asked = ground arith;
                helper_asked = ground (arith, same);
                leader_gave = gave;
                helper_gave = gave';
              }
        ]
      ]

  -- How a client that is set for a round came by its parametrization: it keeps the one it had, and
  -- has asked nobody; or it was not initialised, and both managers gave the same addresses of the
  -- aggregators and the same parameter for this round's task.
  abbrev pub Set : Session J net → RoundSettings J → Session J net → ClientState J → Type 0
  Set s rs s' c =
      ((old : ClientState J) × (s.state ≡ valid_state old)
        × (c.parametrization ≡ old.parametrization)
        × (s'.world ≡ s.world))
      ⊎ ((p : ManagerLocations J) × (l : Locations J) × (w1 : W) × (s.state ≡ init_state p)
          × (l.manager ≡ p)
          × Located p s.world l.main w1
          × Agreed rs.task_id l w1 c.parametrization s'.world)

  abbrev pub Updates : Session J net → RoundSettings J → Outcome (Unit {0}) × Session J net → Type 0
  Updates s rs r =
      ((c : ClientState J) × (r.0 ≡ ok tt)
        × (r.1.state ≡ valid_state c)
        × (c.round.config.settings ≡ rs)
        × Set s rs r.1 c)
      ⊎ ((is_ok r.0 ≡ false) × (r.1.state ≡ s.state))

  init_Updates :
      (rs : RoundSettings J) (p : ManagerLocations J) (s : Session J net)
      → s.state ≡ init_state p
      → Updates s rs (update_state J net rs (init_state p) s)
  unfolding update_state
  init_Updates rs p s e = elim (Option-cases J.default_http_client) [
    | inl e0 ↦ inr (ground arith)
    | inr (h, e0) ↦ elim (Outcome-cases (get_main_locations J net p s.world).0) [
      | inr failed ↦ inr (ground arith)
      | inl (m, e1) ↦
          let l : Locations J = record { main = m; manager = p } in
          let w1 = (get_main_locations J net p s.world).1 in
          elim (Outcome-cases (get_parametrization J net rs.task_id l w1).0) [
            | inr failed ↦ inr (ground arith)
            | inl (q, e2) ↦ inl (
              record {
                parametrization = q;
                permanent = record { http_client = h };
                round = record { config = record { settings = rs } };
              },
              ground arith,
              ground arith,
              refl,
              inr (
                p,
                l,
                w1,
                e,
                refl,
                get_main_locations-Located p m s.world w1 (ground arith),
                get_parametrization-Agreed rs.task_id l w1 _ q (ground arith),
              ),
            )
          ]
    ]
  ]

  -- Setting a client for a round either leaves it in a valid state for that round, or it fails and
  -- leaves the client's state as it was. In the valid state a client that was initialised keeps its
  -- parametrization and has not used the network; one that was not has asked both managers, and its
  -- parametrization has the managers' addresses that it knew, the aggregators' addresses that both
  -- gave, and the vdaf parameter that both gave for the round's task.
  pub api_update_client_round_settings-Updates :
      (rs : RoundSettings J) (s : Session J net)
      → Updates s rs (api_update_client_round_settings J net rs s)
  unfolding api_update_client_round_settings
  api_update_client_round_settings-Updates rs s = by_state s.state refl
    where
      by_state : (p : ClientStatePu J) → s.state ≡ p → Updates s rs (update_state J net rs p s)
      by_state (init_state p) e = init_Updates rs p s e
      by_state (valid_state old) e = inl (
        record old { round = record { config = record { settings = rs } } },
        refl,
        refl,
        refl,
        inl (old, e, refl, refl),
      )
