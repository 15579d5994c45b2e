-- ===== src/Manager/Provisioner/Same/Serving.antt =====
-- The query and the whole server at provisioners that hold the same.
use dpsa4fl.Base.{
  ℕ, ℕ_discrete, ◌≢◌, ◌≡◌, ◌∙◌, refl, sym, ap, inl, inr, arith, List, [], ◌∷◌, Option, none, some,
  Outcome, ok, err, panic, Action, Option-cases, base64_error, codec_error,
}
use dpsa4fl.Base.HashMap
use dpsa4fl.External.{Janus}
use dpsa4fl.Manager.Messages.{Ambient, GetVdafParameterRequest}
use dpsa4fl.Manager.Provisioner.State.{TrainingSession, TaskProvisioner, Sessions}
use dpsa4fl.Manager.Provisioner.Handlers.{
  handle_start_round, handle_create_session, handle_end_session, handle_get_vdaf_parameter,
  sessions_with_id, only_session,
}
use dpsa4fl.Manager.Provisioner.Query.{
  Unheld, Holder, stored, sessions_with_id_none, sessions_with_id_one, none-sessions_with_id,
  sessions_with_id-Holder,
}
use dpsa4fl.Manager.Provisioner.Same.{Same, SameResult, both_are, handle_end_session-Same}
use dpsa4fl.Manager.Provisioner.Same.Starting.{handle_start_round-Same}
use dpsa4fl.Manager.Provisioner.Same.Creation.{handle_create_session-Same}
use dpsa4fl.Manager.Http.{
  locations, Method, get_method, post_method, Route, create_session, end_session, start_round,
  get_vdaf_parameter, get_main_locations, as_vdaf_request, query_or_other, Json, Response,
}
use dpsa4fl.Manager.Server.{respond, error_handler, Rejection, endpoint, post_endpoint, serve}

module _ (J : Janus) where
  open J use {TaskId, decode_base64, get_decoded}

  -- Maps that store the same, without repeated keys.
  module _ (t : TaskId) (m n : Sessions J)
      (same : (sid : ℕ) → stored J sid m ≡ stored J sid n) where
    Unheld-Same : Unheld J t m → Unheld J t n
    Unheld-Same h sid v e = h sid v (same sid ∙ e)

    Holder-Same : (v : TrainingSession J) → Holder J t m v → Holder J t n v
    Holder-Same v h = record {
      sid = h.sid;
      found = sym (same h.sid) ∙ h.found;
      has = h.has;
      only = λ other x e has. h.only other x (same other ∙ e) has;
    }

  -- The answer for the sessions that were found.
  abbrev found_in : TaskId → Sessions J → TaskProvisioner J → Outcome (TrainingSession J)
  found_in t m s = (only_session J t (sessions_with_id J t m) s).0

  found_in-Same :
      (t : TaskId) (m n : Sessions J) (s u : TaskProvisioner J)
      → ((sid : ℕ) → stored J sid m ≡ stored J sid n)
      → HashMap.NodupKeys ℕ_discrete m
      → HashMap.NodupKeys ℕ_discrete n
      → found_in t m s ≡ found_in t n u
  unfolding only_session
  found_in-Same t m n s u same nodup nodup' =
      by_lists (sessions_with_id J t m) (sessions_with_id J t n) refl refl
    where
      back : (sid : ℕ) → stored J sid n ≡ stored J sid m
      back sid = sym (same sid)

      single :
          (v : TrainingSession J) (p q : Sessions J)
          → ((sid : ℕ) → stored J sid p ≡ stored J sid q)
          → HashMap.NodupKeys ℕ_discrete p
          → HashMap.NodupKeys ℕ_discrete q
          → sessions_with_id J t p ≡ v ∷ []
          → sessions_with_id J t q ≡ v ∷ []
      single v p q h u' u'' e =
          let held = Holder-Same t p q h v (sessions_with_id-Holder J t p v u' e) in
          sessions_with_id_one J t held.sid v q u'' held.found held.has held.only

      empty :
          (p q : Sessions J)
          → ((sid : ℕ) → stored J sid p ≡ stored J sid q)
          → HashMap.NodupKeys ℕ_discrete p
          → HashMap.NodupKeys ℕ_discrete q
          → sessions_with_id J t p ≡ []
          → sessions_with_id J t q ≡ []
      empty p q h u' u'' e =
          sessions_with_id_none J t q u'' (Unheld-Same t p q h (none-sessions_with_id J t p u' e))

      by_lists :
          (l k : List (TrainingSession J))
          → sessions_with_id J t m ≡ l
          → sessions_with_id J t n ≡ k
          → found_in t m s ≡ found_in t n u
      by_lists [] k e e' = ground (arith, empty m n same nodup nodup' e)
      by_lists (v ∷ []) k e e' = ground (arith, single v m n same nodup nodup' e)
      by_lists (v ∷ w ∷ vs) [] e e' = cc (e, empty n m back nodup' nodup e')
      by_lists (v ∷ w ∷ vs) (x ∷ []) e e' = cc (e, single x n m back nodup' nodup e')
      by_lists (v ∷ w ∷ vs) (x ∷ y ∷ ys) e e' = ground arith

  only_session_keeps :
      (t : TaskId) (l : List (TrainingSession J)) (s : TaskProvisioner J)
      → (only_session J t l s).1 ≡ s
  unfolding only_session
  only_session_keeps t [] s = refl
  only_session_keeps t (v ∷ []) s = refl
  only_session_keeps t (v ∷ w ∷ vs) s = refl

  -- A query that decodes, by what it finds.
  found-Same :
      (q : GetVdafParameterRequest) (s u : TaskProvisioner J) (bytes : List ℕ) (t : TaskId)
      (x : Outcome (TrainingSession J))
      → Same J s u
      → decode_base64 q.task_id_encoded ≡ some bytes
      → get_decoded bytes ≡ some t
      → found_in t s.training_sessions s ≡ x
      → found_in t u.training_sessions u ≡ x
      → SameResult J (handle_get_vdaf_parameter J q s) (handle_get_vdaf_parameter J q u)
  unfolding handle_get_vdaf_parameter
  found-Same q s u bytes t x h e e' f f' = by_outcome x f f'
    where
      keeps : (only_session J t (sessions_with_id J t s.training_sessions) s).1 ≡ s
      keeps = only_session_keeps t (sessions_with_id J t s.training_sessions) s

      keeps' : (only_session J t (sessions_with_id J t u.training_sessions) u).1 ≡ u
      keeps' = only_session_keeps t (sessions_with_id J t u.training_sessions) u

      by_outcome :
          (y : Outcome (TrainingSession J))
          → found_in t s.training_sessions s ≡ y
          → found_in t u.training_sessions u ≡ y
          → SameResult J (handle_get_vdaf_parameter J q s) (handle_get_vdaf_parameter J q u)
      by_outcome (ok v) g g' =
          both_are J (ok v.vdaf_parameter) s u (ground (arith, keeps)) (ground (arith, keeps')) h
      by_outcome (err z) g g' =
          both_are J (err z) s u (ground (arith, keeps)) (ground (arith, keeps')) h
      by_outcome (panic z) g g' =
          both_are J (panic z) s u (ground (arith, keeps)) (ground (arith, keeps')) h

  query-Same :
      (q : GetVdafParameterRequest) (s u : TaskProvisioner J)
      → Same J s u
      → HashMap.NodupKeys ℕ_discrete s.training_sessions
      → HashMap.NodupKeys ℕ_discrete u.training_sessions
      → SameResult J (handle_get_vdaf_parameter J q s) (handle_get_vdaf_parameter J q u)
  unfolding handle_get_vdaf_parameter
  query-Same q s u h nodup nodup' = elim (Option-cases (decode_base64 q.task_id_encoded)) [
    | inl e ↦ both_are J (err base64_error) s u (ground arith) (ground arith) h
    | inr (bytes, e) ↦ elim (Option-cases (get_decoded bytes)) [
      | inl e' ↦ both_are J (err codec_error) s u (ground arith) (ground arith) h
      | inr (t, e') ↦ found-Same q s u bytes t (found_in t s.training_sessions s) h e e' refl (
          sym (found_in-Same t s.training_sessions u.training_sessions s u h.sessions nodup nodup'))
    ]
  ]

module _ (J : Janus) (rejected : Rejection → Response J) where
  endpoint-Same :
      {A : Type 0} (m : Action (TaskProvisioner J) A) (f : A → Json J) (s u : TaskProvisioner J)
      → SameResult J (m s) (m u)
      → SameResult J (endpoint J m f s) (endpoint J m f u)
  unfolding endpoint
  endpoint-Same m f s u h = (ap (λ r. error_handler J (respond J f r)) h.0, h.1)

  post_endpoint-Same :
      {Q A : Type 0} (read : Json J → Option Q) (handler : Q → Action (TaskProvisioner J) A)
      (f : A → Json J) (m : Method) (body : Option (Json J)) (s u : TaskProvisioner J)
      → Same J s u
      → ((q : Q) → SameResult J (handler q s) (handler q u))
      → SameResult J
          (post_endpoint J rejected read handler f m body s)
          (post_endpoint J rejected read handler f m body u)
  unfolding post_endpoint
  post_endpoint-Same read handler f get_method body s u h same = (refl, h)
  post_endpoint-Same read handler f post_method none s u h same = (refl, h)
  post_endpoint-Same read handler f post_method (some b) s u h same = elim (Option-cases (read b)) [
    | inl e ↦ rw (e, post_endpoint) (refl, h)
    | inr (q, e) ↦ rw (e, post_endpoint) (endpoint-Same (handler q) f s u (same q))
  ]

  -- Every request but the query, of which only the order of the answer needs the keys to be unique.
  pub serve_unasked-Same :
      (a : Ambient J) (m : Method) (route : Option Route) (body : Option (Json J))
      (s u : TaskProvisioner J)
      → Same J s u
      → route ≢ some get_vdaf_parameter
      → SameResult J (serve J rejected a m route body s) (serve J rejected a m route body u)
  unfolding serve
  serve_unasked-Same a m none body s u h other = (refl, h)
  serve_unasked-Same a m (some create_session) body s u h other =
      post_endpoint-Same _ (handle_create_session J a) _ m body s u h
        (λ q. handle_create_session-Same J a q s u h)
  serve_unasked-Same a m (some end_session) body s u h other =
      post_endpoint-Same _ (handle_end_session J) _ m body s u h
        (λ sid. handle_end_session-Same J sid s u h)
  serve_unasked-Same a m (some start_round) body s u h other =
      post_endpoint-Same _ (handle_start_round J a) _ m body s u h
        (λ q. handle_start_round-Same J a q s u h)
  serve_unasked-Same a m (some get_vdaf_parameter) body s u h other = absurd (other refl)
  serve_unasked-Same a get_method (some get_main_locations) body s u h other =
      endpoint-Same (λ x. (ok x.config.main_locations, x)) locations s u
        (ap (λ c. ok c.main_locations) h.config, h)
  serve_unasked-Same a post_method (some get_main_locations) body s u h other = (refl, h)

  -- The server does not see the order of its hash maps: at two provisioners that hold the same, with
  -- no session id stored twice, every request gets the same answer, and leaves provisioners that hold
  -- the same.
  pub serve-Same :
      (a : Ambient J) (m : Method) (route : Option Route) (body : Option (Json J))
      (s u : TaskProvisioner J)
      → Same J s u
      → HashMap.NodupKeys ℕ_discrete s.training_sessions
      → HashMap.NodupKeys ℕ_discrete u.training_sessions
      → SameResult J (serve J rejected a m route body s) (serve J rejected a m route body u)
  unfolding serve
  serve-Same a m route body s u h nodup nodup' = elim (query_or_other route) [
    | inr other ↦ serve_unasked-Same a m route body s u h other
    | inl e ↦ rw e (
        post_endpoint-Same (as_vdaf_request J) (handle_get_vdaf_parameter J) _ m body s u h
          (λ q. query-Same J q s u h nodup nodup'))
  ]
