-- ===== src/Manager/Provisioner/Query.antt =====
-- What `handle_get_vdaf_parameter` answers, by the sessions that hold the task.
use dpsa4fl.Base.{
  ◌↔◌, ok, ℕ, ℕ_discrete, ◌≡◌, refl, inl, inr, arith, List, [], ◌∷◌, Option, none, some, true,
  contains, Bool-cases,
}
use dpsa4fl.Base.HashMap
use dpsa4fl.External.{Janus}
use dpsa4fl.Core.Types.{VdafParameter}
use dpsa4fl.Manager.Messages.{GetVdafParameterRequest}
use dpsa4fl.Manager.Provisioner.State.{TaskProvisioner, TrainingSession, Sessions}
use dpsa4fl.Manager.Provisioner.Handlers.{sessions_with_id, handle_get_vdaf_parameter}

module _ (J : Janus) where
  open J use {TaskId, task_id_discrete, task_id_text, decode_base64, get_decoded}

  abbrev pub HasTask : TaskId → TrainingSession J → Type 0
  HasTask t v = contains task_id_discrete v.tasks t ≡ true

  abbrev pub stored : ℕ → Sessions J → Option (TrainingSession J)
  stored = HashMap.get ℕ_discrete

  -- No session holds the task.
  abbrev pub Unheld : TaskId → Sessions J → Type 0
  Unheld t m = (sid : ℕ) (v : TrainingSession J) → stored sid m ≡ some v → ¬ HasTask t v

  -- Every session that holds the task is the one under this id.
  abbrev pub HeldOnlyBy : TaskId → ℕ → Sessions J → Type 0
  HeldOnlyBy t sid m =
      (other : ℕ) (v : TrainingSession J) → stored other m ≡ some v → HasTask t v → other ≡ sid

  -- The rest of a map has a property of all its entries that the map has.
  rest_of :
      {P : ℕ → TrainingSession J → Type 0} (k : ℕ) (w : TrainingSession J) (m : Sessions J)
      → stored k m ≡ none
      → ((sid : ℕ) (v : TrainingSession J) → stored sid ((k, w) ∷ m) ≡ some v → P sid v)
      → (sid : ℕ) (v : TrainingSession J) → stored sid m ≡ some v
      → P sid v
  rest_of k w m fresh h sid v e = h sid v (HashMap.get-cons_rest ℕ_discrete sid k v w m fresh e)

  stored-head : (k : ℕ) (w : TrainingSession J) (m : Sessions J) → stored k ((k, w) ∷ m) ≡ some w
  stored-head k w m = ground (arith, HashMap.get-cons ℕ_discrete k k w m)

  pub sessions_with_id_none :
      (t : TaskId) (m : Sessions J)
      → HashMap.NodupKeys ℕ_discrete m
      → Unheld t m
      → sessions_with_id J t m ≡ []
  unfolding sessions_with_id
  sessions_with_id_none t [] u h = refl
  sessions_with_id_none t ((k, w) ∷ m) (fresh, u) h =
      ground (arith, h k w (stored-head k w m), sessions_with_id_none t m u (rest_of k w m fresh h))

  pub sessions_with_id_one :
      (t : TaskId) (sid : ℕ) (v : TrainingSession J) (m : Sessions J)
      → HashMap.NodupKeys ℕ_discrete m
      → stored sid m ≡ some v
      → HasTask t v
      → HeldOnlyBy t sid m
      → sessions_with_id J t m ≡ v ∷ []
  unfolding sessions_with_id
  sessions_with_id_one t sid v [] u e has only =
      cc (HashMap.get-nil {V = TrainingSession J} ℕ_discrete sid)
  sessions_with_id_one t sid v ((k, w) ∷ m) (fresh, u) e has only =
      elim (Bool-cases (contains task_id_discrete w.tasks t)) [
        | inl here ↦
            let same = only k w (stored-head k w m) here in
            ground (
              arith,
              HashMap.get-cons ℕ_discrete sid k w m,
              same,
              sessions_with_id_none t m u
                  (λ other x ex hx. cc (rest_of k w m fresh only other x ex hx, same)),
            )
        | inr not_here ↦ ground (
          arith,
          HashMap.get-cons ℕ_discrete sid k w m,
          sessions_with_id_one t sid v m u (ground (arith, HashMap.get-cons ℕ_discrete sid k w m))
              has (rest_of k w m fresh only),
        )
      ]

  pub none-sessions_with_id :
      (t : TaskId) (m : Sessions J)
      → HashMap.NodupKeys ℕ_discrete m
      → sessions_with_id J t m ≡ []
      → Unheld t m
  unfolding sessions_with_id
  none-sessions_with_id t [] u h sid v e has =
      cc (HashMap.get-nil {V = TrainingSession J} ℕ_discrete sid)
  none-sessions_with_id t ((k, w) ∷ m) (fresh, u) h sid v e has = ground (
    arith,
    HashMap.get-cons ℕ_discrete sid k w m,
    λ (q : sessions_with_id J t m ≡ []) (e' : stored sid m ≡ some v).
        none-sessions_with_id t m u q sid v e' has,
  )

  -- The one session that holds the task.
  pub record Holder (t : TaskId) (m : Sessions J) (v : TrainingSession J) : Type 0 where
    pub sid : ℕ
    pub found : stored sid m ≡ some v
    pub has : HasTask t v
    pub only : HeldOnlyBy t sid m

  pub sessions_with_id-Holder :
      (t : TaskId) (m : Sessions J) (v : TrainingSession J)
      → HashMap.NodupKeys ℕ_discrete m
      → sessions_with_id J t m ≡ v ∷ []
      → Holder t m v
  unfolding sessions_with_id
  sessions_with_id-Holder t [] v u h = cc
  sessions_with_id-Holder t ((k, w) ∷ m) v (fresh, u) h =
      elim (Bool-cases (contains task_id_discrete w.tasks t)) [
        | inl here ↦
            let none_left : sessions_with_id J t m ≡ [] = ground arith in
            record {
              sid = k;
              found = ground (arith, stored-head k w m);
              has = ground arith;
              only = λ other x e hx. ground (
                arith,
                HashMap.get-cons ℕ_discrete other k w m,
                λ (e' : stored other m ≡ some x).
                    none-sessions_with_id t m u none_left other x e' hx,
              );
            }
        | inr not_here ↦
            let p = sessions_with_id-Holder t m v u (ground arith) in
            record {
              sid = p.sid;
              found = HashMap.get-cons_rest ℕ_discrete p.sid k v w m fresh p.found;
              has = p.has;
              only = λ other x e hx. ground (
                arith,
                HashMap.get-cons ℕ_discrete other k w m,
                λ (e' : stored other m ≡ some x). p.only other x e' hx,
              );
            }
      ]

  module _ (q : GetVdafParameterRequest) (s : TaskProvisioner J) (bytes : List ℕ) (t : TaskId)
      (decoded : decode_base64 q.task_id_encoded ≡ some bytes) (parsed : get_decoded bytes ≡ some t)
      (u : HashMap.NodupKeys ℕ_discrete s.training_sessions) where
    -- For a well-formed request on a map without repeated ids, the handler answers with the
    -- parameter of a session exactly when that session is the only one to hold the task.
    pub handle_get_vdaf_parameter_iff :
        (p : VdafParameter J)
        → (handle_get_vdaf_parameter J q s ≡ (ok p, s))
          ↔ ((v : TrainingSession J) × Holder t s.training_sessions v × (v.vdaf_parameter ≡ p))
    unfolding handle_get_vdaf_parameter
    handle_get_vdaf_parameter_iff p = (
      answered (sessions_with_id J t s.training_sessions) refl,
      λ (v, held, same). ground (
        arith,
        sessions_with_id_one t held.sid v s.training_sessions u held.found held.has held.only,
      ),
    )
      where
        answered :
            (l : List (TrainingSession J))
            → sessions_with_id J t s.training_sessions ≡ l
            → handle_get_vdaf_parameter J q s ≡ (ok p, s)
            → (v : TrainingSession J) × Holder t s.training_sessions v × (v.vdaf_parameter ≡ p)
        answered [] e h = ground arith
        answered (v ∷ []) e h =
            (v, sessions_with_id-Holder t s.training_sessions v u e, ground arith)
        answered (v ∷ w ∷ vs) e h = ground arith
