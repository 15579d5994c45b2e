-- ===== src/Examples/Rounds.antt =====
-- Two rounds in a session, and a client of the first.
use dpsa4fl.System.Create.{SameSession}
use dpsa4fl.System.Tasks.{round_tasks_match, of_helper, of_leader, HoldsTask}
use dpsa4fl.Manager.Provisioner.Provision.{provision_task}
use dpsa4fl.Client.{get_parametrization}
use dpsa4fl.System.Round.{asks}
use dpsa4fl.Manager.Provisioner.Handlers.{task_of, handle_start_round, handle_end_session}
use dpsa4fl.Manager.Consumer.{draw_verify_key, start_round}
use dpsa4fl.Manager.Provisioner.State.{TrainingSession, TaskProvisioner}
use dpsa4fl.Base.{ℕ_discrete, ◌≡◌, refl, arith, [], ◌∷◌, none, some, ok}
use dpsa4fl.Base.HashMap
use dpsa4fl.Examples.Data.{
  services, network, controller_client, deployment, LeadsTo-leader, LeadsTo-helper, draws, holding,
  helping, task_42, all_locations, parameter,
}
use dpsa4fl.External.Sample.{
  Task, sample-IsDatastore, put, find, run, single, sample-IsTransactional, sample, sample-IsCodec,
  decode_marked,
}
use dpsa4fl.Manager.Server.{serve}
use dpsa4fl.System.World.{found_at, next, World, after, leader_party, helper_party}
use dpsa4fl.System.Progress.{start_round_delivered}
use dpsa4fl.System.Rounds.{Rounds, BothHave, done, started_one, recorded_tasks}
use dpsa4fl.Manager.Messages.{Ambient}
use dpsa4fl.Examples.Runs.{
  idle, created, begun, creates_5, starts_42, stray_spares, created-Exclusive,
}
use dpsa4fl.System.Setup.{client_takes_parameter}

abbrev pub draws_43 : Ambient sample
draws_43 = record draws { task_id = 43 }

abbrev pub task_43 : Task
task_43 = record task_42 { id = 43 }

abbrev pub lead_twice : TaskProvisioner sample
lead_twice = holding 5 (42 ∷ 43 ∷ []) (task_43 ∷ task_42 ∷ [])

abbrev help_twice : TaskProvisioner sample
help_twice =
    helping 5 (42 ∷ 43 ∷ []) (record task_43 { role = 3 } ∷ record task_42 { role = 3 } ∷ [])

abbrev twice : World sample
twice = after sample helper_party help_twice (after sample leader_party lead_twice begun)

pub leader_starts :
    handle_start_round sample draws
      (asks sample deployment services 5 43)
      (holding 5 (42 ∷ []) (task_42 ∷ []))
    ≡ (ok tt, lead_twice)
unfolding handle_start_round HashMap.get ℕ_discrete decode_marked single task_of provision_task run
    find put HashMap.insert
leader_starts = refl

helper_starts :
    handle_start_round sample draws
      (asks sample deployment services 5 43)
      (helping 5 (42 ∷ []) (record task_42 { role = 3 } ∷ []))
    ≡ (ok tt, help_twice)
unfolding handle_start_round HashMap.get ℕ_discrete decode_marked single task_of provision_task run
    find put HashMap.insert
helper_starts = refl

starts_43 : start_round sample network controller_client draws_43 5 begun ≡ (ok 43, twice)
unfolding serve handle_end_session HashMap.get ℕ_discrete
starts_43 =
    start_round_delivered sample deployment services controller_client LeadsTo-leader LeadsTo-helper
      draws_43 5 begun lead_twice help_twice (refl, refl) leader_starts helper_starts

starts_twice : Rounds sample deployment services controller_client 5 created (42 ∷ 43 ∷ []) twice
starts_twice =
    started_one draws (stray_spares, stray_spares) starts_42
      (started_one draws_43 (stray_spares, stray_spares) starts_43 done)

recorded_tasks_example :
    (lead : TrainingSession sample) × (help : TrainingSession sample) × SameSession sample
      deployment services controller_client
      (draw_verify_key sample network controller_client draws)
      lead
      help
    × BothHave sample deployment services 5 lead help (42 ∷ 43 ∷ []) twice
recorded_tasks_example =
    recorded_tasks sample deployment services sample-IsCodec sample-IsTransactional
      controller_client LeadsTo-leader LeadsTo-helper draws idle created twice 5 (42 ∷ 43 ∷ [])
      creates_5 starts_twice

client_takes_parameter_example :
    (get_parametrization sample network 42 all_locations twice).0
    ≡ ok (record { location = all_locations; vdaf_parameter = parameter })
unfolding serve handle_end_session HashMap.get ℕ_discrete
client_takes_parameter_example =
    client_takes_parameter sample deployment services sample-IsCodec sample-IsTransactional
      controller_client LeadsTo-leader LeadsTo-helper draws idle created twice 5 (42 ∷ 43 ∷ []) 42
      creates_5 starts_twice (ground arith) (stray_spares, stray_spares) created-Exclusive
      (refl, refl)

no_task_yet : sample.get_aggregator_task 42 [] ≡ some none
unfolding find
no_task_yet = refl

round_tasks_match_example :
    (lead : TrainingSession sample) × (help : TrainingSession sample) × SameSession sample
      deployment services controller_client
      (draw_verify_key sample network controller_client draws)
      lead
      help
    × HoldsTask sample deployment services 42
        (found_at sample deployment leader_party created)
        begun.leader
        lead
        (of_leader sample deployment services lead)
    × HoldsTask sample deployment services 42
        (found_at sample deployment helper_party (next sample created))
        begun.helper
        help
        (of_helper sample deployment services help)
unfolding serve handle_end_session HashMap.get ℕ_discrete
round_tasks_match_example =
    round_tasks_match sample deployment services sample-IsCodec sample-IsDatastore
      (λ e. omega arith) controller_client LeadsTo-leader LeadsTo-helper draws draws idle created
      begun 5 42 creates_5 (stray_spares, stray_spares) no_task_yet no_task_yet starts_42
