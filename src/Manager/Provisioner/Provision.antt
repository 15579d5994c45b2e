-- ===== src/Manager/Provisioner/Provision.antt =====
-- `provision_task`: a task is written once, and found again if it has the same parameters.
use dpsa4fl.Base.{
  ℕ_discrete, Bool, ◌&&◌, Option, none, some, text, Action, Outcome, ok, err, datastore_error,
  task_conflict, test, option_discrete, if◌then◌else◌,
}
use dpsa4fl.External.{Janus}

module _ (J : Janus) where
  open J use {
    Datastore, AggregatorTask, id, get_aggregator_task, put_aggregator_task, run_tx, url_discrete,
    query_type_discrete, vdaf_discrete, secret_discrete, role_discrete, time_discrete,
    duration_discrete, hpke_config_discrete, peer_aggregator_endpoint, query_type, vdaf,
    opaque_vdaf_verify_key, role, max_batch_query_count, task_expiration, min_batch_size,
    time_precision, collector_hpke_config,
  }

  -- The comparison of an existing task with the incoming one.
  unfoldable pub same_parameters : AggregatorTask → AggregatorTask → Bool
  same_parameters existing task =
      test (url_discrete (peer_aggregator_endpoint existing) (peer_aggregator_endpoint task))
      && (test (query_type_discrete (query_type existing) (query_type task))
          && (test (vdaf_discrete (vdaf existing) (vdaf task))
              && (test (
                    secret_discrete (opaque_vdaf_verify_key existing) (opaque_vdaf_verify_key task))
                  && (test (role_discrete (role existing) (role task))
                      && (test (
                            ℕ_discrete (max_batch_query_count existing)
                              (max_batch_query_count task))
                          && (test (
                                option_discrete time_discrete (task_expiration existing)
                                  (task_expiration task))
                              && (test (ℕ_discrete (min_batch_size existing) (min_batch_size task))
                                  && (test (
                                        duration_discrete (time_precision existing)
                                          (time_precision task))
                                      && test (
                                          option_discrete hpke_config_discrete
                                            (collector_hpke_config existing)
                                            (collector_hpke_config task))))))))))

  -- The body of the transaction, by what the query for the task's id gave.
  unfoldable pub post_task_found :
      AggregatorTask → Datastore → Option (Option AggregatorTask) → Outcome Datastore
  post_task_found task d none = err datastore_error
  post_task_found task d (some none) = elim (put_aggregator_task task d) [
    | none ↦ err datastore_error
    | some d' ↦ ok d'
  ]
  post_task_found task d (some (some existing)) =
      if same_parameters existing task then ok d else err task_conflict

  unfoldable pub post_task : AggregatorTask → Datastore → Outcome Datastore
  unfolding post_task_found
  post_task task d = post_task_found task d (get_aggregator_task (id task) d)

  unfoldable pub provision_task : AggregatorTask → Action Datastore (Unit {0})
  unfolding post_task
  provision_task task = run_tx (text "post_task") (post_task task)
