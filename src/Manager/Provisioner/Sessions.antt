-- ===== src/Manager/Provisioner/Sessions.antt =====
-- The life of a session and of a task: what ending a session does, and what a second start with the
-- same task id does.
use dpsa4fl.Base.{
  ite, false, is_ok, ℕ, ℕ_discrete, ◌≡◌, ◌≢◌, ◌⊎◌, inl, inr, arith, List, none, some, true, ok, err,
  Option-cases, no_session_to_remove,
}
use dpsa4fl.Base.HashMap
use dpsa4fl.External.{Janus}
use dpsa4fl.External.Laws.{IsDatastore}
use dpsa4fl.Manager.Messages.{Ambient, StartRoundRequest}
use dpsa4fl.Manager.Provisioner.State.{TaskProvisioner, session_of}
use dpsa4fl.Manager.Provisioner.Handlers.{handle_start_round, handle_end_session}
use dpsa4fl.Manager.Provisioner.Provision.{same_parameters}
use dpsa4fl.Manager.Provisioner.Start.{Prepared, Prepared-id, handle_start_round-Starts}

module _ (J : Janus) where
  open J use {TaskId, AggregatorTask, decode_base64, get_decoded, get_aggregator_task}

  -- Ending a session removes it, and nothing else; without such a session it is refused with the id
  -- and changes nothing.
  pub handle_end_session_cases :
      (sid : ℕ) (s : TaskProvisioner J)
      → let (answer, s') = handle_end_session J sid s in
        ((session_of J sid s ≢ none)
          × (answer ≡ ok tt)
          × ((other : ℕ)
              → session_of J other s' ≡ ite (ℕ_discrete other sid) none (session_of J other s))
          × (s'.datastore ≡ s.datastore)
          × (s'.keyring ≡ s.keyring))
        ⊎ ((session_of J sid s ≡ none) × (answer ≡ err (no_session_to_remove sid)) × (s' ≡ s))
  unfolding handle_end_session
  handle_end_session_cases sid s = elim (Option-cases (session_of J sid s)) [
    | inl missing ↦ inr (missing, ground arith, ground arith)
    | inr (v, found) ↦ inl (
      λ e. cc,
      ground arith,
      λ other. ground (arith, HashMap.get-remove ℕ_discrete other sid s.training_sessions),
      ground arith,
      ground arith,
    )
  ]

  -- Over a datastore that finds what was put into it by transactions that commit or roll back, a task
  -- id is provisioned once: a start whose task id is in the datastore already leaves the
  -- datastore as it is, and succeeds only if the stored task has the parameters of the new one.
  pub start_round_stored :
      IsDatastore J
      → (a : Ambient J) (q : StartRoundRequest) (s : TaskProvisioner J)
      → (bytes : List ℕ) (t : TaskId) (old : AggregatorTask)
      → decode_base64 q.task_id_encoded ≡ some bytes
      → get_decoded bytes ≡ some t
      → get_aggregator_task t s.datastore ≡ some (some old)
      → ((handle_start_round J a q s).1.datastore ≡ s.datastore)
        × ((is_ok (handle_start_round J a q s).0 ≡ false)
            ⊎ ((p : Prepared J a q s) × (same_parameters J old p.task ≡ true)))
  start_round_stored L a q s bytes t old decoded parsed stored =
      elim (handle_start_round-Starts J L.tx a q s) [
        | inr (same, failed) ↦ (ground arith, inl failed)
        | inl (p, d, e, inl (found, at, params, same)) ↦
            let ids : J.id p.task ≡ t = cc (Prepared-id J L a q s p, p.parsed, p.decoded) in
            let olds : found ≡ old = cc in (rw e same, inr (p, rw (← olds) params))
        | inl (p, d, e, inr (fresh, put)) ↦
            let ids : J.id p.task ≡ t = cc (Prepared-id J L a q s p, p.parsed, p.decoded) in
            absurd (cc)
      ]
