-- ===== src/Manager/Server/Rely.antt =====
-- Requests of others that spare a session.
use dpsa4fl.Base.{
  ℕ, ◌≡◌, ◌≢◌, ◌∙◌, refl, ap, Option, none, some, List, [], ◌∷◌, Option-cases, inl, inr,
}
use dpsa4fl.External.{Janus}
use dpsa4fl.Manager.Messages.{Ambient}
use dpsa4fl.Manager.Http.{
  Method, get_method, post_method, Route, Json, Response, as_vdaf_request, query_or_other,
}
use dpsa4fl.Manager.Provisioner.State.{TaskProvisioner, session_of}
use dpsa4fl.Manager.Provisioner.Swap.Order.{session_named, serve-Framed}
use dpsa4fl.Manager.Server.{Rejection, serve, post_endpoint}
use dpsa4fl.Manager.Server.Answers.{query_keeps}
use dpsa4fl.Manager.Server.Steps.{Arrival, served}

-- None of the requests creates the session, starts a round in it, or ends it.
abbrev pub Sparing : (J : Janus) → ℕ → List (Arrival J) → Type 0
Sparing J sid [] = Unit
Sparing J sid (r ∷ rs) = (session_named J r.ambient r.route r.body ≢ some sid) × Sparing J sid rs

-- A query changes nothing.
module _ (J : Janus) (rejected : Rejection → Response J) where
  pub query_spares :
      (a : Ambient J) (m : Method) (body : Option (Json J)) (s : TaskProvisioner J)
      → (serve J rejected a m (some Route.get_vdaf_parameter) body s).1 ≡ s
  unfolding serve
  query_spares a get_method body s = refl
  query_spares a post_method none s = refl
  query_spares a post_method (some b) s = elim (Option-cases (as_vdaf_request J b)) [
    | inl e ↦ rw (e, post_endpoint) refl
    | inr (q, e) ↦ rw (e, post_endpoint) (query_keeps J q s)
  ]

module _ (J : Janus) (rejected : Rejection → Response J) (sid : ℕ) where
  serve_spares :
      (a : Ambient J) (m : Method) (route : Option Route) (body : Option (Json J))
      (s : TaskProvisioner J)
      → session_named J a route body ≢ some sid
      → session_of J sid (serve J rejected a m route body s).1 ≡ session_of J sid s
  serve_spares a m route body s ne = elim (query_or_other route) [
    | inl e ↦ rw e (ap (session_of J sid) (query_spares J rejected a m body s))
    | inr other ↦ (serve-Framed J rejected sid a m route body ne other).keeps s
  ]

  pub served_spares :
      (rs : List (Arrival J)) (s : TaskProvisioner J)
      → Sparing J sid rs
      → session_of J sid (served J rejected rs s) ≡ session_of J sid s
  served_spares [] s h = refl
  served_spares (r ∷ rs) s (h, hs) =
      served_spares rs (serve J rejected r.ambient r.method r.route r.body s).1 hs
      ∙ serve_spares r.ambient r.method r.route r.body s h
