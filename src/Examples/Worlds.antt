-- ===== src/Examples/Worlds.antt =====
-- The controller and two managers that it reaches.
use dpsa4fl.Manager.Provisioner.Provision.{provision_task}
use dpsa4fl.System.Finish.{end_session_agrees, HasEnded}
use dpsa4fl.System.Round.{start_round_agrees, HasStarted}
use dpsa4fl.Manager.Provisioner.State.{session_of, TrainingSession}
use dpsa4fl.Manager.Keyring.{get_random_keypair}
use dpsa4fl.Manager.Provisioner.Handlers.{
  task_of, handle_start_round, handle_end_session, build_session, choose_id, handle_create_session,
}
use dpsa4fl.Manager.Server.{serve}
use dpsa4fl.Base.{◌∷◌, [], ℕ_discrete, ◌≡◌, refl, none, some, ok}
use dpsa4fl.Base.HashMap
use dpsa4fl.Examples.Data.{
  network, services, holding, resolve, controller_client, deployment, LeadsTo-leader,
  LeadsTo-helper, world_of, fresh, draws,
}
use dpsa4fl.External.Sample.{
  put, find, run, single, sample-IsDatastore, sample, sample-IsCodec, decode_marked, list_discrete,
  nonempty, keypair,
}
use dpsa4fl.Manager.Consumer.{
  both_ok, end_session, start_round, draw_verify_key, created_id, make_request, post,
  create_session,
}
use dpsa4fl.System.World.{deliver, exchange, World}
use dpsa4fl.System.Create.{SameSession, create_session_agrees}

abbrev idle : World sample
idle = world_of fresh fresh

abbrev after_creation : World sample
after_creation = (create_session sample network controller_client draws idle).1

creates_5 : create_session sample network controller_client draws idle ≡ (ok 5, after_creation)
unfolding create_session post exchange resolve list_discrete ℕ_discrete deliver serve
    handle_create_session choose_id make_request build_session decode_marked nonempty
    get_random_keypair HashMap.get keypair created_id
creates_5 = refl

create_session_agrees_example :
    (lead : TrainingSession sample) × (help : TrainingSession sample) × (session_of sample 5
        after_creation.leader
      ≡ some lead)
    × (session_of sample 5 after_creation.helper ≡ some help)
    × (session_of sample 5 idle.helper ≡ none)
    × SameSession sample deployment services controller_client
        (draw_verify_key sample network controller_client draws)
        lead
        help
create_session_agrees_example =
    create_session_agrees sample deployment services sample-IsCodec controller_client LeadsTo-leader
      LeadsTo-helper draws idle after_creation 5 creates_5

abbrev in_session : World sample
in_session = world_of (holding 7 [] []) (holding 7 (3 ∷ []) [])

abbrev after_start : World sample
after_start = (start_round sample network controller_client draws 7 in_session).1

starts_42 : start_round sample network controller_client draws 7 in_session ≡ (ok 42, after_start)
unfolding start_round post exchange resolve list_discrete ℕ_discrete deliver serve
    handle_start_round HashMap.get decode_marked single task_of provision_task run find put both_ok
    HashMap.insert
starts_42 = refl

start_round_agrees_example :
    (draws.task_id ≡ 42)
    × HasStarted sample deployment services 7 42 in_session.leader after_start.leader
    × HasStarted sample deployment services 7 42 in_session.helper after_start.helper
start_round_agrees_example =
    start_round_agrees sample deployment services sample-IsCodec sample-IsDatastore
      controller_client LeadsTo-leader LeadsTo-helper draws 7 in_session after_start 42 starts_42

abbrev after_end : World sample
after_end = (end_session sample network controller_client 7 in_session).1

ends_7 : end_session sample network controller_client 7 in_session ≡ (ok tt, after_end)
unfolding end_session post exchange resolve list_discrete ℕ_discrete deliver serve
    handle_end_session HashMap.get both_ok
ends_7 = refl

end_session_agrees_example :
    HasEnded sample deployment services 7 in_session.leader after_end.leader
    × HasEnded sample deployment services 7 in_session.helper after_end.helper
end_session_agrees_example =
    end_session_agrees sample deployment services controller_client LeadsTo-leader LeadsTo-helper 7
      in_session after_end ends_7

-- The leader has ended the session, the helper has not.
abbrev half_ended : World sample
half_ended = world_of fresh (holding 7 [] [])
