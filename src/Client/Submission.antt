-- ===== src/Client/Submission.antt =====
-- What the submissions of a client do, over any network: which gradients leave it.
use dpsa4fl.Base.{
  subst, Outcome, ℕ_discrete, ◌≡◌, ◌≢◌, ◌⊎◌, inl, inr, arith, some, ok, err, is_ok, false, length,
  Option-cases, wrong_length, wrong_type,
}
use dpsa4fl.External.{Janus}
use dpsa4fl.Core.Tag.{FixedTypeTag-discrete, VecFixedAny, get_tag, elements}
use dpsa4fl.Core.Types.{CommonStateParametrization}
use dpsa4fl.Manager.Network.{Network}
use dpsa4fl.Client.Settings.{api_update_client_round_settings-Updates}
use dpsa4fl.Client.{
  RoundSettings, ClientState, valid_state, get_janus_client, get_submission_result, Session,
  api_update_client_round_settings, submit_state, api_submit_with,
}

module _ (J : Janus) {W : Type 0} (net : Network J W) where
  -- The gradient's elements are uploaded by a janus client for the round's task, that was built with
  -- the external addresses of the leader and the helper, in this order, and with the VDAF for two
  -- aggregators, the gradient's type and the length of the parameter.
  pub record Uploads (c : ClientState J) (v : VecFixedAny) (w w' : W) : Type 0 where
    pub vdaf : J.Prio3 (get_tag v)
    pub client : net.Client (get_tag v)
    pub between : W
    pub made :
        J.new_fixedpoint_boundedl2_vec_sum
          (get_tag v)
          2
          c.parametrization.vdaf_parameter.gradient_len
        ≡ some vdaf
    pub built :
        net.build
          (get_tag v)
          c.round.config.settings.task_id
          c.parametrization.location.main.external_leader
          c.parametrization.location.main.external_helper
          (J.duration_from_seconds 1)
          vdaf
          w
        ≡ (some client, between)
    pub sent : net.upload (get_tag v) client (elements v) between ≡ (some tt, w')

  -- How a submission ends.
  abbrev pub Submits : ClientState J → VecFixedAny → W → Outcome (Unit {0}) × W → Type 0
  Submits c v w r =
      let p = c.parametrization.vdaf_parameter in
      ((length (elements v) ≢ p.gradient_len)
        × (r ≡ (err (wrong_length p.gradient_len (length (elements v))), w)))
      ⊎ ((get_tag v ≢ p.submission_type) × (r ≡ (err wrong_type, w)))
      ⊎ ((length (elements v) ≡ p.gradient_len)
          × (get_tag v ≡ p.submission_type)
          × ((is_ok r.0 ≡ false) ⊎ ((r.0 ≡ ok tt) × Uploads c v w r.1)))

  -- What the call does once length and type fit.
  upload_runs :
      (c : ClientState J) (v : VecFixedAny) (w : W)
      → (length (elements v) ≡ c.parametrization.vdaf_parameter.gradient_len)
      → (get_tag v ≡ c.parametrization.vdaf_parameter.submission_type)
      → let r = get_submission_result J net c v w in
        (is_ok r.0 ≡ false) ⊎ ((r.0 ≡ ok tt) × Uploads c v w r.1)
  unfolding get_submission_result get_janus_client
  upload_runs c v w len tag =
      let l = c.parametrization.location.main in
      elim (Option-cases (
        J.new_fixedpoint_boundedl2_vec_sum (get_tag v) 2
          c.parametrization.vdaf_parameter.gradient_len)) [
            | inl refused ↦ inl (ground arith)
            | inr (vdaf, made) ↦
                let build =
                  net.build (get_tag v) c.round.config.settings.task_id l.external_leader
                    l.external_helper (J.duration_from_seconds 1) vdaf w in
                elim (Option-cases build.0) [
                  | inl refused ↦ inl (ground arith)
                  | inr (client, built) ↦
                      elim (Option-cases (net.upload (get_tag v) client (elements v) build.1).0) [
                        | inl refused ↦ inl (ground arith)
                        | inr (done, sent) ↦ inr (
                          ground arith,
                          record {
                            vdaf = vdaf;
                            client = client;
                            between = build.1;
                            made = made;
                            built = ground arith;
                            sent = ground arith;
                          },
                        )
                      ]
                ]
          ]

  -- A gradient of another length or type than the client's parametrization says is refused before
  -- the network is used. With any other the call fails, or it succeeds and has uploaded the elements
  -- of that gradient with a janus client that was built for the task of the round, the external
  -- addresses of leader and helper, and the VDAF of the parametrization.
  pub get_submission_result-Submits :
      (c : ClientState J) (v : VecFixedAny) (w : W)
      → Submits c v w (get_submission_result J net c v w)
  unfolding get_submission_result
  get_submission_result-Submits c v w =
      let p = c.parametrization.vdaf_parameter in
      elim (ℕ_discrete (length (elements v)) p.gradient_len) [
        | no differs ↦ inl (differs, ground arith)
        | yes len ↦ elim (FixedTypeTag-discrete (get_tag v) p.submission_type) [
          | no differs ↦ inr (inl (differs, ground arith))
          | yes tag ↦ inr (inr (len, tag, upload_runs c v w len tag))
        ]
      ]

  -- `api_submit_with` stops where the update for the round fails. Otherwise the client is valid, its
  -- state stays so, and what `get_data` makes of its parametrization is submitted or refused as
  -- `Submits` says; the branch for a client that is not initialised is never taken.
  pub api_submit_with_cases :
      (rs : RoundSettings J) (get_data : CommonStateParametrization J → VecFixedAny)
      → (s : Session J net)
      → let u = api_update_client_round_settings J net rs s in
        let r = api_submit_with J net rs get_data s in
        ((is_ok u.0 ≡ false) × (r ≡ u))
        ⊎ ((c : ClientState J) × (u.0 ≡ ok tt)
            × (u.1.state ≡ valid_state c)
            × (r.1.state ≡ valid_state c)
            × Submits c (get_data c.parametrization) u.1.world (r.0, r.1.world))
  unfolding api_submit_with submit_state
  api_submit_with_cases rs get_data s = elim (api_update_client_round_settings-Updates J net rs s) [
    | inr (failed, same) ↦ inl (failed, ground arith)
    | inl (c, done, valid, settings, set) ↦
        let u = api_update_client_round_settings J net rs s in
        let r = api_submit_with J net rs get_data s in
        let v = get_data c.parametrization in
        let same : get_submission_result J net c v u.1.world ≡ (r.0, r.1.world) = ground arith in
        inr (
          c,
          done,
          valid,
          ground arith,
          subst (Submits c v u.1.world) same (get_submission_result-Submits c v u.1.world),
        )
  ]
