-- ===== src/Manager/Server/Abstract.antt =====
-- The server on provisioners up to the order of their hash maps: a quotient.
use dpsa4fl.Base.{inl, inr, ℕ, ◌≡◌, ◌≢◌, ◌∙◌, refl, ap, Option, some, List, [], ◌∷◌}
use mathlib.Core.Quot
use mathlib.Core.Quot.{Quot, Quot-set}
use dpsa4fl.External.{Janus}
use dpsa4fl.Manager.Messages.{Ambient}
use dpsa4fl.Manager.Http.{
  Method, post_method, Route, end_session, query_or_other, Json, Response, session_id,
}
use dpsa4fl.Manager.Provisioner.State.{TaskProvisioner}
use dpsa4fl.Manager.Provisioner.Same.{Same, Same-refl}
use dpsa4fl.Manager.Provisioner.Same.Serving.{serve_unasked-Same}
use dpsa4fl.Manager.Provisioner.Swap.Order.{session_named, end_session-Swaps}
use dpsa4fl.Manager.Server.{Rejection, serve}
use dpsa4fl.Manager.Server.Steps.{Arrival, served}
use dpsa4fl.Manager.Server.Rely.{Sparing, query_spares}

module _ (J : Janus) (rejected : Rejection → Response J) where
  -- A provisioner, without the order in which its maps list their entries.
  abbrev pub Abstract : Type 0
  Abstract = Quot (Same J)

  -- The state that a request leaves.
  abbrev pub left : Arrival J → TaskProvisioner J → TaskProvisioner J
  left r s = (serve J rejected r.ambient r.method r.route r.body s).1

  pub serve_left-Same :
      (a : Ambient J) (m : Method) (route : Option Route) (body : Option (Json J))
      (s u : TaskProvisioner J)
      → Same J s u
      → Same J (serve J rejected a m route body s).1 (serve J rejected a m route body u).1
  serve_left-Same a m route body s u h = elim (query_or_other route) [
    | inr other ↦ (serve_unasked-Same J rejected a m route body s u h other).1
    | inl e ↦ rw (e, query_spares J rejected a m body s, query_spares J rejected a m body u) h
  ]

  -- A request on the abstract state, and one request after the other.
  unfoldable pub stepped : Arrival J → Abstract → Abstract
  stepped r =
      Quot.lift Quot-set (λ s. Quot.mk (left r s))
        (λ s u h. Quot.sound (serve_left-Same r.ambient r.method r.route r.body s u h))

  abbrev pub run : List (Arrival J) → Abstract → Abstract
  run [] x = x
  run (r ∷ rs) x = run rs (stepped r x)

  -- The requests on a provisioner are those on what it stands for.
  run-served :
      (rs : List (Arrival J)) (s : TaskProvisioner J)
      → run rs (Quot.mk s) ≡ Quot.mk (served J rejected rs s)
  unfolding stepped
  run-served [] s = refl
  run-served (r ∷ rs) s = run-served rs (left r s)

  -- The end of a session.
  abbrev pub ending : Ambient J → ℕ → Arrival J
  ending b sid = record {
    ambient = b;
    method = post_method;
    route = some end_session;
    body = some (session_id sid);
  }

  ended_serve :
      (a b : Ambient J) (m : Method) (route : Option Route) (body : Option (Json J)) (sid : ℕ)
      (s : TaskProvisioner J)
      → session_named J a route body ≢ some sid
      → Same J
          (left (ending b sid) (serve J rejected a m route body s).1)
          (serve J rejected a m route body (left (ending b sid) s)).1
  ended_serve a b m route body sid s ne = elim (query_or_other route) [
    | inr other ↦ (end_session-Swaps J rejected sid a b m route body s ne other).2
    | inl e ↦
        rw
          (
            e,
            query_spares J rejected a m body s,
            query_spares J rejected a m body (left (ending b sid) s),
          )
          (Same-refl J (left (ending b sid) s))
  ]

  -- The end of a session and one request that spares it.
  stepped_comm :
      (r : Arrival J) (b : Ambient J) (sid : ℕ)
      → session_named J r.ambient r.route r.body ≢ some sid
      → (x : Abstract) → stepped (ending b sid) (stepped r x) ≡ stepped r (stepped (ending b sid) x)
  unfolding stepped
  stepped_comm r b sid ne =
      Quot.ind (λ x. Quot-set _ _)
        λ s. Quot.sound (ended_serve r.ambient b r.method r.route r.body sid s ne)

  -- On provisioners up to the order of their maps, the end of a session can be moved before any list
  -- of requests none of which creates that session, starts a round in it or ends it: what is left is
  -- equal.
  pub run_ending :
      (rs : List (Arrival J)) (b : Ambient J) (sid : ℕ) (x : Abstract)
      → Sparing J sid rs
      → stepped (ending b sid) (run rs x) ≡ run rs (stepped (ending b sid) x)
  run_ending [] b sid x h = refl
  run_ending (r ∷ rs) b sid x (ne, h) =
      run_ending rs b sid (stepped r x) h ∙ ap (run rs) (stepped_comm r b sid ne x)
