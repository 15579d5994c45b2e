-- ===== src/Examples/Runs.antt =====
-- Runs of the controller and a client over a network that delivers.
use dpsa4fl.Manager.Provisioner.Provision.{provision_task}
use dpsa4fl.Manager.Keyring.{get_random_keypair}
use dpsa4fl.System.Round.{asks}
use dpsa4fl.Manager.Provisioner.Create.{Decoded, made_session}
use dpsa4fl.Manager.Provisioner.Handlers.{
  build_session, choose_id, task_of, handle_start_round, handle_create_session, handle_end_session,
}
use dpsa4fl.Manager.Consumer.{
  draw_verify_key, make_request, create_session, end_session, start_round,
}
use dpsa4fl.Manager.Provisioner.State.{session_of, TaskProvisioner}
use dpsa4fl.Base.{
  ℕ_discrete, ◌≡◌, ◌≢◌, refl, arith, [], ◌∷◌, none, some, ok, err, error_from_helper,
}
use dpsa4fl.Base.HashMap
use dpsa4fl.Examples.Data.{
  services, network, controller_client, deployment, LeadsTo-leader, LeadsTo-helper, world_of, fresh,
  draws, holding, helping, task_42, session_with,
}
use dpsa4fl.Examples.Provisioner.{start_42_succeeds}
use dpsa4fl.Examples.Races.{decoded, key_kept}
use dpsa4fl.External.Sample.{put, find, run, single, sample, decode_marked, nonempty, keypair}
use dpsa4fl.Manager.Http.{post_method, Route, session_id}
use dpsa4fl.Manager.Server.{serve}
use dpsa4fl.Manager.Server.Steps.{Arrival}
use dpsa4fl.Manager.Server.Rely.{Sparing}
use dpsa4fl.System.World.{World, after, leader_party, helper_party}
use dpsa4fl.System.Progress.{
  IsEnded, help_request, lead_request, start_round_delivered, end_session_delivered,
  create_session_delivered,
}
use dpsa4fl.System.Exclusive.{Exclusive}
use dpsa4fl.External.Sample.{sample-IsTransactional}
use dpsa4fl.System.Collision.{create_session_collides}

abbrev both_hold : World sample
both_hold = world_of (holding 7 [] []) (holding 7 [] [])

abbrev started_42 : TaskProvisioner sample
started_42 = holding 7 (42 ∷ []) (task_42 ∷ [])

start_round_delivered_example :
    start_round sample network controller_client draws 7 both_hold
    ≡ (ok 42, after sample helper_party started_42 (after sample leader_party started_42 both_hold))
start_round_delivered_example =
    start_round_delivered sample deployment services controller_client LeadsTo-leader LeadsTo-helper
      draws 7 both_hold started_42 started_42 (refl, refl) start_42_succeeds start_42_succeeds

held_7 : session_of sample 7 (holding 7 [] []) ≢ none
unfolding HashMap.get ℕ_discrete
held_7 e = cc

-- Either manager after its session was ended.
abbrev none_held : TaskProvisioner sample
none_held = (handle_end_session sample 7 (holding 7 [] [])).1

end_session_delivered_example :
    (end_session sample network controller_client 7 both_hold ≡ (
      ok tt,
      after sample helper_party none_held (after sample leader_party none_held both_hold),
    ))
    × IsEnded sample deployment services 7 (holding 7 [] []) none_held
    × IsEnded sample deployment services 7 (holding 7 [] []) none_held
end_session_delivered_example =
    end_session_delivered sample deployment services controller_client LeadsTo-leader LeadsTo-helper
      7 both_hold (refl, refl) held_7 held_7

-- A request of others that comes before each exchange: to end a session that is not there.
abbrev pub stray : Arrival sample
stray = record {
  ambient = draws;
  method = post_method;
  route = some Route.end_session;
  body = some (session_id 9);
}

abbrev pub idle : World sample
idle = record (world_of fresh fresh) { others = λ n. stray ∷ [] }

abbrev pub created : World sample
created =
    after sample helper_party (helping 5 [] []) (after sample leader_party (holding 5 [] []) idle)

pub leader_creates :
    handle_create_session sample draws
      (lead_request sample deployment services controller_client draws)
      fresh
    ≡ (ok 5, holding 5 [] [])
unfolding handle_create_session choose_id make_request build_session decode_marked ℕ_discrete
    nonempty get_random_keypair HashMap.get keypair HashMap.insert draw_verify_key
leader_creates = refl

pub helper_creates :
    handle_create_session sample draws
      (help_request sample deployment services controller_client draws 5)
      fresh
    ≡ (ok 5, helping 5 [] [])
unfolding handle_create_session choose_id make_request HashMap.get build_session decode_marked
    ℕ_discrete nonempty get_random_keypair keypair HashMap.insert draw_verify_key
helper_creates = refl

pub creates_5 : create_session sample network controller_client draws idle ≡ (ok 5, created)
unfolding serve handle_end_session HashMap.get ℕ_discrete
creates_5 =
    create_session_delivered sample deployment services controller_client LeadsTo-leader
      LeadsTo-helper draws idle 5 (holding 5 [] []) (helping 5 [] []) (refl, refl) leader_creates
      helper_creates

create_session_delivered_example :
    create_session sample network controller_client draws idle ≡ (ok 5, created)
unfolding serve handle_end_session HashMap.get ℕ_discrete
create_session_delivered_example =
    create_session_delivered sample deployment services controller_client LeadsTo-leader
      LeadsTo-helper draws idle 5 (holding 5 [] []) (helping 5 [] []) (refl, refl) leader_creates
      helper_creates

-- Both managers hold a session under the id that the leader draws.
abbrev crowded : World sample
crowded = world_of (holding 5 (3 ∷ []) []) (holding 5 (3 ∷ []) [])

crowded_decoded :
    Decoded sample draws
      (lead_request sample deployment services controller_client draws)
      (holding 5 (3 ∷ []) [])
unfolding make_request draw_verify_key
crowded_decoded = decoded (holding 5 (3 ∷ []) []) (holding 5 [] []).keyring none key_kept

create_session_collides_example :
    let (answer, w') = create_session sample network controller_client draws crowded in
    (answer ≡ err (error_from_helper 400))
    × (session_of sample 5 w'.leader
        ≡ some (
            made_session sample draws
              (lead_request sample deployment services controller_client draws)
              (holding 5 (3 ∷ []) [])
              crowded_decoded))
    × (session_of sample 5 w'.helper ≡ some (session_with (3 ∷ [])))
unfolding HashMap.get ℕ_discrete
create_session_collides_example =
    create_session_collides sample deployment services controller_client LeadsTo-leader
      LeadsTo-helper draws crowded (session_with (3 ∷ [])) (session_with (3 ∷ [])) (refl, refl) refl
      refl crowded_decoded

abbrev pub begun : World sample
begun =
    after sample helper_party (helping 5 (42 ∷ []) (record task_42 { role = 3 } ∷ []))
      (after sample leader_party (holding 5 (42 ∷ []) (task_42 ∷ [])) created)

leader_starts :
    handle_start_round sample draws (asks sample deployment services 5 42) (holding 5 [] [])
    ≡ (ok tt, holding 5 (42 ∷ []) (task_42 ∷ []))
unfolding handle_start_round HashMap.get ℕ_discrete decode_marked single task_of provision_task run
    find put HashMap.insert
leader_starts = refl

helper_starts :
    handle_start_round sample draws (asks sample deployment services 5 42) (helping 5 [] [])
    ≡ (ok tt, helping 5 (42 ∷ []) (record task_42 { role = 3 } ∷ []))
unfolding handle_start_round HashMap.get ℕ_discrete decode_marked single task_of provision_task run
    find put HashMap.insert
helper_starts = refl

pub starts_42 : start_round sample network controller_client draws 5 created ≡ (ok 42, begun)
unfolding serve handle_end_session HashMap.get ℕ_discrete
starts_42 =
    start_round_delivered sample deployment services controller_client LeadsTo-leader LeadsTo-helper
      draws 5 created (holding 5 (42 ∷ []) (task_42 ∷ []))
      (helping 5 (42 ∷ []) (record task_42 { role = 3 } ∷ [])) (refl, refl) leader_starts
      helper_starts

pub stray_spares : Sparing sample 5 (stray ∷ [])
stray_spares = (λ e. ground arith, tt)

-- The task 42 is in no session yet, and the stray request starts no round.
pub created-Exclusive : Exclusive sample deployment services 5 42 sample-IsTransactional created
unfolding HashMap.get
created-Exclusive = record {
  leader = record { nodup = (refl, tt); only = λ other v e has. ground arith };
  helper = record { nodup = (refl, tt); only = λ other v e has. ground arith };
  others = λ n. (λ other q e asked. cc, tt);
}
