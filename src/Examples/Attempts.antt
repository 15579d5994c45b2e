-- ===== src/Examples/Attempts.antt =====
-- A start that fails, since the leader's answer is lost, and one that returns after it.
use dpsa4fl.Base.{ℕ, ◌≡◌, refl, [], ◌∷◌, ok, err, http_error, ℕ_discrete}
use dpsa4fl.Base.HashMap
use dpsa4fl.External.Sample.{
  put, find, run, single, sample, sample-IsTransactional, sample-IsCodec, decode_marked,
  list_discrete,
}
use dpsa4fl.Manager.Provisioner.State.{TrainingSession}
use dpsa4fl.Manager.Provisioner.Provision.{provision_task}
use dpsa4fl.Manager.Provisioner.Handlers.{task_of, handle_start_round, handle_end_session}
use dpsa4fl.Manager.Server.{serve}
use dpsa4fl.Manager.Consumer.{post, both_ok, create_session, draw_verify_key, start_round}
use dpsa4fl.System.World.{
  Fate, answer_lost, delivered, World, after, leader_party, helper_party, deliver, exchange,
}
use dpsa4fl.System.Create.{SameSession}
use dpsa4fl.System.Round.{asks}
use dpsa4fl.System.Progress.{create_session_delivered, start_round_delivered}
use dpsa4fl.System.Exchanges.{Has}
use dpsa4fl.System.Attempts.{Attempts, done, returned, failed, returned_kept}
use dpsa4fl.Examples.Data.{
  services, network, controller_client, deployment, LeadsTo-leader, LeadsTo-helper, draws, holding,
  helping, task_42, resolve,
}
use dpsa4fl.Examples.Runs.{idle, leader_creates, helper_creates, stray_spares}
use dpsa4fl.Examples.Rounds.{draws_43, task_43, lead_twice, leader_starts}

-- The network loses the answer to the third message.
abbrev third_lost : ℕ → Fate
third_lost n = elim (ℕ_discrete n 2) [ yes e ↦ answer_lost | no ne ↦ delivered ]

abbrev lossy : World sample
lossy = record idle { fate = third_lost }

abbrev made : World sample
made =
    after sample helper_party (helping 5 [] []) (after sample leader_party (holding 5 [] []) lossy)

made_5 : create_session sample network controller_client draws lossy ≡ (ok 5, made)
unfolding serve handle_end_session HashMap.get ℕ_discrete
made_5 =
    create_session_delivered sample deployment services controller_client LeadsTo-leader
      LeadsTo-helper draws lossy 5 (holding 5 [] []) (helping 5 [] []) (refl, refl) leader_creates
      helper_creates

-- The leader has started the round, the helper was not asked.
abbrev half : World sample
half = after sample leader_party (holding 5 (42 ∷ []) (task_42 ∷ [])) made

loses_42 : start_round sample network controller_client draws 5 made ≡ (err http_error, half)
unfolding start_round both_ok post exchange deliver serve handle_start_round handle_end_session
    HashMap.get ℕ_discrete decode_marked single task_of provision_task run find put HashMap.insert
    resolve list_discrete
loses_42 = refl

abbrev help_43 : World sample
help_43 =
    after sample helper_party (helping 5 (43 ∷ []) (record task_43 { role = 3 } ∷ []))
      (after sample leader_party lead_twice half)

helper_starts_43 :
    handle_start_round sample draws (asks sample deployment services 5 43) (helping 5 [] [])
    ≡ (ok tt, helping 5 (43 ∷ []) (record task_43 { role = 3 } ∷ []))
unfolding handle_start_round HashMap.get ℕ_discrete decode_marked single task_of provision_task run
    find put HashMap.insert
helper_starts_43 = refl

starts_43 : start_round sample network controller_client draws_43 5 half ≡ (ok 43, help_43)
unfolding serve handle_end_session HashMap.get ℕ_discrete
starts_43 =
    start_round_delivered sample deployment services controller_client LeadsTo-leader LeadsTo-helper
      draws_43 5 half lead_twice (helping 5 (43 ∷ []) (record task_43 { role = 3 } ∷ []))
      (refl, refl) leader_starts helper_starts_43

one_of_two : Attempts sample deployment services controller_client 5 made (43 ∷ []) help_43
unfolding start_round both_ok post exchange deliver serve handle_start_round handle_end_session
    HashMap.get ℕ_discrete decode_marked single task_of provision_task run find put HashMap.insert
    resolve list_discrete
one_of_two =
    failed draws (stray_spares, stray_spares) refl
      (returned draws_43 (stray_spares, stray_spares) starts_43 done)

returned_kept_example :
    (lead : TrainingSession sample) × (help : TrainingSession sample) × SameSession sample
      deployment services controller_client
      (draw_verify_key sample network controller_client draws)
      lead
      help
    × Has sample deployment services leader_party 5 lead (43 ∷ []) help_43
    × Has sample deployment services helper_party 5 help (43 ∷ []) help_43
returned_kept_example =
    returned_kept sample deployment services sample-IsCodec sample-IsTransactional 5
      controller_client LeadsTo-leader LeadsTo-helper draws lossy made help_43 (43 ∷ []) made_5
      one_of_two
