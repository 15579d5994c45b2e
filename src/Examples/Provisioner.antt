-- ===== src/Examples/Provisioner.antt =====
-- The requests to a provisioner.
use dpsa4fl.Manager.Provisioner.StartedQuery.{start_round_queried}
use dpsa4fl.Manager.Provisioner.Query.{Unheld}
use dpsa4fl.Manager.Http.{start_request, Route, post_method}
use dpsa4fl.Manager.Server.{serve}
use dpsa4fl.Manager.Server.Answers.{serve_atomic, Answers}
use dpsa4fl.Manager.Provisioner.Sessions.{start_round_stored, handle_end_session_cases}
use dpsa4fl.Manager.Keyring.{get_random_keypair}
use dpsa4fl.Manager.Provisioner.State.{TrainingSession, session_of}
use dpsa4fl.Manager.Provisioner.Provision.{same_parameters, provision_task}
use dpsa4fl.Manager.Provisioner.Provisioned.{provision_task-Provisions, Provisions}
use dpsa4fl.Manager.Provisioner.Create.{handle_create_session-Creates, Creates}
use dpsa4fl.Manager.Provisioner.Start.{Prepared, handle_start_round-Starts, Starts}
use dpsa4fl.Manager.Provisioner.Handlers.{
  handle_get_vdaf_parameter, build_session, choose_id, task_of, handle_end_session,
  handle_create_session, handle_start_round,
}
use dpsa4fl.Base.{
  arith, false, true, is_ok, ite, no_session_to_remove, no_session, ℕ, ℕ_discrete, ◌≡◌, ◌≢◌, ◌⊎◌,
  refl, [], ◌∷◌, none, some, ok, err,
}
use dpsa4fl.Base.HashMap
use dpsa4fl.Examples.Data.{ask_42, draws, fresh, holding, task_42, start_42, creation, plain_answer}
use dpsa4fl.External.Sample.{
  sample, sample-IsTransactional, sample-IsDatastore, decode_marked, single, nonempty, keypair,
  find, put, run,
}

pub start_42_succeeds :
    handle_start_round sample draws (start_42 7) (holding 7 [] [])
    ≡ (ok tt, holding 7 (42 ∷ []) (task_42 ∷ []))
unfolding handle_start_round HashMap.get ℕ_discrete decode_marked single task_of provision_task run
    find put HashMap.insert
start_42_succeeds = refl

start_without_session :
    handle_start_round sample draws (start_42 8) (holding 7 [] [])
    ≡ (err (no_session 8), holding 7 [] [])
unfolding handle_start_round HashMap.get ℕ_discrete
start_without_session = refl

create_7 : handle_create_session sample draws (creation (some 7)) fresh ≡ (ok 7, holding 7 [] [])
unfolding handle_create_session choose_id HashMap.get build_session decode_marked ℕ_discrete
    nonempty get_random_keypair keypair HashMap.insert
create_7 = refl

end_7 :
    handle_end_session sample 7 (holding 7 [] [])
    ≡ (ok tt, record (holding 7 [] []) { training_sessions = [] })
unfolding handle_end_session HashMap.get ℕ_discrete HashMap.remove
end_7 = refl

handle_start_round-Starts_example : Starts sample draws (start_42 7) (holding 7 [] [])
handle_start_round-Starts_example =
    handle_start_round-Starts sample sample-IsTransactional draws (start_42 7) (holding 7 [] [])

handle_create_session-Creates_example : Creates sample draws (creation (some 7)) fresh
handle_create_session-Creates_example =
    handle_create_session-Creates sample draws (creation (some 7)) fresh

provision_task-Provisions_example : Provisions sample task_42 [] (provision_task sample task_42 [])
provision_task-Provisions_example =
    provision_task-Provisions sample sample-IsTransactional task_42 []

handle_end_session_cases_example :
    let (answer, s') = handle_end_session sample 7 (holding 7 [] []) in
    ((session_of sample 7 (holding 7 [] []) ≢ none)
      × (answer ≡ ok tt)
      × ((other : ℕ)
          → session_of sample other s'
            ≡ ite (ℕ_discrete other 7) none (session_of sample other (holding 7 [] [])))
      × (s'.datastore ≡ [])
      × (s'.keyring ≡ (holding 7 [] []).keyring))
    ⊎ ((session_of sample 7 (holding 7 [] []) ≡ none)
        × (answer ≡ err (no_session_to_remove 7))
        × (s' ≡ holding 7 [] []))
handle_end_session_cases_example = handle_end_session_cases sample 7 (holding 7 [] [])

start_round_stored_example :
    let s = holding 7 [] (task_42 ∷ []) in
    ((handle_start_round sample draws (start_42 7) s).1.datastore ≡ s.datastore)
    × ((is_ok (handle_start_round sample draws (start_42 7) s).0 ≡ false)
        ⊎ ((p : Prepared sample draws (start_42 7) s) × (same_parameters sample task_42 p.task
              ≡ true)))
unfolding decode_marked single find ℕ_discrete
start_round_stored_example =
    start_round_stored sample sample-IsDatastore draws (start_42 7) (holding 7 [] (task_42 ∷ []))
      (42 ∷ []) 42 task_42 refl refl refl

serve_atomic_example :
    Answers sample plain_answer
      (serve sample plain_answer draws post_method
        (some Route.start_round)
        (some (start_request (start_42 7)))
        (holding 7 [] []))
      (holding 7 [] [])
serve_atomic_example =
    serve_atomic sample plain_answer sample-IsTransactional draws post_method
      (some Route.start_round) (some (start_request (start_42 7))) (holding 7 [] [])

no_tasks : Unheld sample 42 (holding 7 [] []).training_sessions
unfolding HashMap.get
no_tasks sid v e has = ground arith

start_round_queried_example :
    (v : TrainingSession sample) × (session_of sample 7 (holding 7 [] []) ≡ some v)
    × (handle_get_vdaf_parameter sample ask_42 (holding 7 (42 ∷ []) (task_42 ∷ []))
        ≡ (ok v.vdaf_parameter, holding 7 (42 ∷ []) (task_42 ∷ [])))
unfolding HashMap.get decode_marked single ℕ_discrete
start_round_queried_example =
    start_round_queried sample sample-IsTransactional draws (start_42 7) (holding 7 [] [])
      (holding 7 (42 ∷ []) (task_42 ∷ [])) (42 ∷ []) 42 refl refl (refl, tt) no_tasks
      start_42_succeeds
