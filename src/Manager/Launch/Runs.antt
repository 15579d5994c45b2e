-- ===== src/Manager/Launch/Runs.antt =====
-- A server that was started, after any requests.
use dpsa4fl.Base.{
  sym, subst, ◌≡◌, ◌∙◌, refl, sym, subst, ap, inl, inr, arith, Option, some, Outcome, ok, err,
  panic, List, [], Option-cases, ℕ,
}
use dpsa4fl.External.{Janus}
use dpsa4fl.External.Laws.{IsDatastore, IsTransactional}
use dpsa4fl.Manager.Messages.{Ambient, CreateTrainingSessionRequest, StartRoundRequest}
use dpsa4fl.Manager.Http.{get_method, Route, Response, Json, status_ok, locations}
use dpsa4fl.Manager.Provisioner.State.{
  TaskProvisioner, TaskProvisionerConfig, TrainingSession, new_provisioner, session_of,
}
use dpsa4fl.Manager.Provisioner.Handlers.{handle_start_round, handle_end_session, build_session}
use dpsa4fl.Manager.Provisioner.Start.{handle_start_round-Starts}
use dpsa4fl.Manager.Provisioner.Create.{build_session-Builds}
use dpsa4fl.Manager.Provisioner.Machine.{Machine, Step, Reach}
use dpsa4fl.Manager.Provisioner.Invariant.{IsValid, Reach-IsValid}
use dpsa4fl.Manager.Server.{Rejection, serve}
use dpsa4fl.Manager.Server.Steps.{Arrival, served, served-Reached}
use dpsa4fl.Manager.Launch.{Host, BinaryContext, Server, main}

module _ (J : Janus) where
  -- No step changes the configuration.
  module _ (L : IsTransactional J) where
    started_config :
        (a : Ambient J) (q : StartRoundRequest) (s : TaskProvisioner J)
        → (handle_start_round J a q s).1.config ≡ s.config
    started_config a q s = elim (handle_start_round-Starts J L a q s) [
      | inr (same, failed) ↦ ap (λ x. x.config) same
      | inl (p, d, e, posted) ↦ ap (λ x. x.1.config) e
    ]

    ended_config :
        (sid : ℕ) (s : TaskProvisioner J) → (handle_end_session J sid s).1.config ≡ s.config
    unfolding handle_end_session
    ended_config sid s = elim (Option-cases (session_of J sid s)) [
      | inl e ↦ ground arith
      | inr (v, e) ↦ ground arith
    ]

    built_config :
        (a : Ambient J) (q : CreateTrainingSessionRequest J) (s s' : TaskProvisioner J)
        (v : TrainingSession J)
        → build_session J a q s ≡ (ok v, s')
        → s'.config ≡ s.config
    built_config a q s s' v h = elim (build_session-Builds J a q s) [
      | inr (same, failed) ↦ cc
      | inl (p, e) ↦ cc
    ]

    Step-config : {m n : Machine J} → Step J m n → n.provisioner.config ≡ m.provisioner.config
    Step-config {m} (Step.start_round a q) = started_config a q m.provisioner
    Step-config {m} (Step.abandon_start a q p d e) = refl
    Step-config {m} (Step.end_session sid) = ended_config sid m.provisioner
    Step-config {m} (Step.choose a q sid e) = refl
    Step-config {m} (Step.build before after a q sid v p e made) =
        built_config a q m.provisioner p v made
    Step-config {m} (Step.insert before after sid v e) = refl
    Step-config {m} (Step.drop before after p e) = refl

    pub Reach-config : {m n : Machine J} → Reach J m n → n.provisioner.config ≡ m.provisioner.config
    Reach-config Reach.here = refl
    Reach-config (Reach.next r st) = Step-config st ∙ Reach-config r

  -- What `main` has started, if it gets to wait for the server.
  started_by_main :
      (H : Host) (janus_main : H.Environment → Outcome (BinaryContext J H)) (env : H.Environment)
      (bound : H.SocketAddr) (server : Server J H)
      → main J H janus_main env ≡ ok (bound, server)
      → (ctx : BinaryContext J H) × (janus_main env ≡ ok ctx)
        × (server.aggregator ≡ new_provisioner J ctx.datastore ctx.config.task_provisioner_config)
  unfolding main
  started_by_main H janus_main env bound server h = by_context (janus_main env) refl
    where
      by_context :
          (r : Outcome (BinaryContext J H))
          → janus_main env ≡ r
          → (ctx : BinaryContext J H) × (janus_main env ≡ ok ctx)
            × (server.aggregator
                ≡ new_provisioner J ctx.datastore ctx.config.task_provisioner_config)
      by_context (err e) g = ground arith
      by_context (panic p) g = ground arith
      by_context (ok ctx) g = elim (Option-cases (H.bind_ephemeral ctx.config.listen_address)) [
        | inl e ↦ ground arith
        | inr (x, e) ↦ (ctx, g, ground arith)
      ]

  new_config : (d : J.Datastore) (c : TaskProvisionerConfig J) → (new_provisioner J d c).config ≡ c
  unfolding new_provisioner
  new_config d c = refl

  pub serve_locations :
      (rejected : Rejection → Response J) (a : Ambient J) (body : Option (Json J))
      (s : TaskProvisioner J)
      → serve J rejected a get_method (some Route.get_main_locations) body s
        ≡ (ok (record { status = status_ok; body = locations s.config.main_locations }), s)
  unfolding serve
  serve_locations rejected a body s = refl

  -- Over a datastore that finds what was put into it by transactions that commit or roll back: once
  -- `main` has started the server, then after any requests, one after the other, no session id is
  -- stored twice, every task of a session is in the datastore and every session's key pair in the
  -- keyring; and a GET of the main locations is answered with status 200 and those of the
  -- configuration that `main` was started with.
  pub main-IsValid :
      IsDatastore J
      → (H : Host) (janus_main : H.Environment → Outcome (BinaryContext J H)) (env : H.Environment)
        (bound : H.SocketAddr) (server : Server J H)
      → main J H janus_main env ≡ ok (bound, server)
      → (rejected : Rejection → Response J) (rs : List (Arrival J)) (a : Ambient J)
        (body : Option (Json J))
      → let s = served J rejected rs server.aggregator in
        (ctx : BinaryContext J H) × (janus_main env ≡ ok ctx)
        × IsValid J (record { provisioner = s; pending = [] })
        × (serve J rejected a get_method (some Route.get_main_locations) body s ≡ (
          ok (record {
            status = status_ok;
            body = locations ctx.config.task_provisioner_config.main_locations;
          }),
          s,
        ))
  main-IsValid L H janus_main env bound server h rejected rs a body =
      let (ctx, made, fresh) = started_by_main H janus_main env bound server h in
      let d = ctx.datastore in
      let c = ctx.config.task_provisioner_config in
      let start : Machine J = record { provisioner = new_provisioner J d c; pending = [] } in
      let reached = served-Reached J start [] rejected rs (new_provisioner J d c) Reach.here in
      let s = served J rejected rs (new_provisioner J d c) in
      let same : s.config ≡ c = Reach-config L.tx reached ∙ new_config d c in
      let (valid, answered) =
        subst
          (λ x.
            IsValid J (record { provisioner = served J rejected rs x; pending = [] })
            × (serve J rejected a get_method (some Route.get_main_locations) body
                  (served J rejected rs x)
                ≡ (
                  ok (record { status = status_ok; body = locations c.main_locations }),
                  served J rejected rs x,
                )))
          (sym fresh)
          (
            Reach-IsValid J L d c reached,
            subst
                (λ x.
                  serve J rejected a get_method (some Route.get_main_locations) body s
                  ≡ (ok (record { status = status_ok; body = locations x.main_locations }), s))
                same (serve_locations rejected a body s),
          ) in
      (ctx, made, valid, answered)
