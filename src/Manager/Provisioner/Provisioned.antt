-- ===== src/Manager/Provisioner/Provisioned.antt =====
-- What `provision_task` leaves in the datastore.
use dpsa4fl.Base.{
  Option, none, some, Outcome, ok, err, Error, text, ◌≡◌, refl, ◌⊎◌, inl, inr, arith, Option-cases,
  Bool-cases, true, datastore_error, task_conflict, ◌∙◌,
}
use dpsa4fl.External.{Janus}
use dpsa4fl.External.Laws.{IsTransactional, IsDatastore}
use dpsa4fl.Manager.Provisioner.Provision.{
  same_parameters, post_task, post_task_found, provision_task,
}

module _ (J : Janus) where
  open J use {Datastore, AggregatorTask, TaskId, id, get_aggregator_task, put_aggregator_task}

  -- A datastore holds a task under this id.
  abbrev pub IsStored : TaskId → Datastore → Type 0
  IsStored t d = (task : AggregatorTask) × (get_aggregator_task t d ≡ some (some task))

  -- What a committed transaction has done: nothing, as the task was there with the same
  -- parameters, or a put.
  abbrev pub Posted : AggregatorTask → Datastore → Datastore → Type 0
  Posted task d d' =
      ((existing : AggregatorTask) × (get_aggregator_task (id task) d ≡ some (some existing))
        × (same_parameters J existing task ≡ true)
        × (d' ≡ d))
      ⊎ ((get_aggregator_task (id task) d ≡ some none) × (put_aggregator_task task d ≡ some d'))

  post_task_found-Posted :
      (task : AggregatorTask) (d d' : Datastore) (r : Option (Option AggregatorTask))
      → get_aggregator_task (id task) d ≡ r
      → post_task_found J task d r ≡ ok d'
      → Posted task d d'
  unfolding post_task_found
  post_task_found-Posted task d d' none e h = cc
  post_task_found-Posted task d d' (some none) e h = inr (e, ground arith)
  post_task_found-Posted task d d' (some (some existing)) e h =
      inl (existing, e, ground arith, ground arith)

  post_task-Posted :
      (task : AggregatorTask) (d d' : Datastore) → post_task J task d ≡ ok d' → Posted task d d'
  unfolding post_task
  post_task-Posted task d d' h = post_task_found-Posted task d d' _ refl h

  -- The transaction never panics.
  post_task_ends :
      (task : AggregatorTask) (d : Datastore)
      → ((d' : Datastore) × (post_task J task d ≡ ok d'))
        ⊎ ((e : Error) × (post_task J task d ≡ err e))
  unfolding post_task
  post_task_ends task d = found (get_aggregator_task (id task) d)
    where
      found :
          (r : Option (Option AggregatorTask))
          → ((d' : Datastore) × (post_task_found J task d r ≡ ok d'))
            ⊎ ((e : Error) × (post_task_found J task d r ≡ err e))
      found none = inr (datastore_error, refl)
      found (some none) = elim (Option-cases (put_aggregator_task task d)) [
        | inl e ↦ inr (datastore_error, ground arith)
        | inr (d', e) ↦ inl (d', ground arith)
      ]
      found (some (some existing)) = elim (Bool-cases (same_parameters J existing task)) [
        | inl e ↦ inl (d, ground arith)
        | inr e ↦ inr (task_conflict, ground arith)
      ]

  -- How a call of `provision_task` ends: with what `Posted` says, or with an error and no change.
  abbrev pub Provisions : AggregatorTask → Datastore → Outcome (Unit {0}) × Datastore → Type 0
  Provisions task d r =
      ((d' : Datastore) × (r ≡ (ok tt, d')) × Posted task d d') ⊎ ((e : Error) × (r ≡ (err e, d)))

  -- Under transactions that commit or roll back, `provision_task` either succeeds and has put the
  -- task, or left the datastore as it was because a task with that id and the same parameters was
  -- there; or it fails with an error and the datastore is unchanged. It never panics.
  pub provision_task-Provisions :
      IsTransactional J
      → (task : AggregatorTask) (d : Datastore) → Provisions task d (provision_task J task d)
  unfolding provision_task
  provision_task-Provisions L task d = elim (post_task_ends task d) [
    | inl (d', e) ↦ elim (L.run_tx_commit (text "post_task") (post_task J task) d d' e) [
      | inl done ↦ inl (d', done, post_task-Posted task d d' e)
      | inr failed ↦ inr failed
    ]
    | inr (e, h) ↦ inr (L.run_tx_rollback (text "post_task") (post_task J task) d e h)
  ]

  -- After a successful call the task's id is stored, and what was stored stays so.
  pub Posted-IsStored :
      IsDatastore J
      → (task : AggregatorTask) (d d' : Datastore) → Posted task d d'
      → IsStored (id task) d'
  Posted-IsStored L task d d' (inl (existing, e, same, q)) = (existing, rw q e)
  Posted-IsStored L task d d' (inr (fresh, put)) = (task, L.get-put_self task d d' put)

  pub Posted-IsStored_others :
      IsDatastore J
      → (task : AggregatorTask) (d d' : Datastore) (t : TaskId) → Posted task d d'
      → IsStored t d
      → IsStored t d'
  Posted-IsStored_others L task d d' t (inl (existing, e, same, q)) (old, h) = (old, rw q h)
  Posted-IsStored_others L task d d' t (inr (fresh, put)) (old, h) =
      (old, L.get-put_ne task d d' t put (λ e. cc) ∙ h)
