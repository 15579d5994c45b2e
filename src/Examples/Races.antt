-- ===== src/Examples/Races.antt =====
-- Creations that race, the invariant on a run, the query and the key registry.
use dpsa4fl.Manager.Provisioner.Race.{Overtakes, Follows, after_second}
use dpsa4fl.Base.{err, session_exists}
use dpsa4fl.Manager.Provisioner.State.{TaskProvisioner}
use dpsa4fl.Base.{inr}
use dpsa4fl.Manager.Keyring.{stored, fetch_keypair}
use dpsa4fl.Manager.Keyring.Laws.{fetch_keypair_others}
use dpsa4fl.Manager.Provisioner.Query.{handle_get_vdaf_parameter_iff, Unheld, Holder}
use dpsa4fl.Manager.Http.{post_method, Route, create_request, start_request}
use dpsa4fl.Manager.Server.{serve}
use dpsa4fl.Manager.Provisioner.Handlers.{handle_create_session, handle_start_round, task_of}
use dpsa4fl.Manager.Provisioner.Provision.{provision_task}
use dpsa4fl.Base.{◌⊎◌}
use dpsa4fl.External.Sample.{single, run, find, put, sample-IsTransactional}
use dpsa4fl.Manager.Provisioner.Gains.{Holds}
use dpsa4fl.Manager.Server.Gains.{Accepted, served_gains}
use dpsa4fl.Manager.Server.Steps.{Arrival, served}
use dpsa4fl.Manager.Provisioner.Invariant.{Reach-IsValid, IsValid}
use dpsa4fl.Manager.Provisioner.Machine.{Step, Reach}
use dpsa4fl.Manager.Keyring.{empty_registry, get_random_keypair, HpkeConfigRegistry}
use dpsa4fl.Manager.Provisioner.State.{
  TrainingSession, new_provisioner, session_of, TaskProvisioner,
}
use dpsa4fl.Manager.Provisioner.Race.{after_first, create_race}
use dpsa4fl.Manager.Provisioner.Create.{made_session, Decoded}
use dpsa4fl.Manager.Provisioner.Handlers.{handle_get_vdaf_parameter, build_session, choose_id}
use dpsa4fl.Base.{ℕ, ℕ_discrete, ◌≡◌, ◌↔◌, refl, List, [], ◌∷◌, Option, none, some, ok, arith}
use dpsa4fl.Base.HashMap
use dpsa4fl.Examples.Data.{
  plain_answer, parameter, draws, settings, fresh, session_with, holding, start_42, ask_42,
  creation,
}
use dpsa4fl.External.Sample.{sample, sample-IsDatastore, decode_marked, single, nonempty, keypair}

pub marked : (b : List ℕ) → decode_marked (64 ∷ b) ≡ some b
unfolding decode_marked ℕ_discrete
marked b = refl

pub token : (c : ℕ) (b : List ℕ) → nonempty (c ∷ b) ≡ some (c ∷ b)
unfolding nonempty
token c b = refl

abbrev pub decoded :
    (s : TaskProvisioner sample) (r : HpkeConfigRegistry sample) (sid : Option ℕ)
    → get_random_keypair sample draws s.keyring ≡ (ok (9, 1), r)
    → Decoded sample draws (creation sid) s
decoded s r sid drawn = record {
  collector_bytes = 7 ∷ [];
  collector_token = 7 ∷ [];
  leader_token = 64 ∷ 8 ∷ [];
  key_bytes = 1 ∷ 2 ∷ [];
  keypair = (9, 1);
  keyring = r;
  collector_decoded = marked (7 ∷ []);
  collector_made = token 7 [];
  leader_made = token 64 (8 ∷ []);
  key_decoded = marked (1 ∷ 2 ∷ []);
  key_drawn = drawn;
}

pub key_drawn :
    get_random_keypair sample draws fresh.keyring ≡ (ok (9, 1), (holding 5 [] []).keyring)
unfolding get_random_keypair keypair HashMap.insert HashMap.get
key_drawn = refl

pub key_kept :
    get_random_keypair sample draws (holding 5 [] []).keyring
    ≡ (ok (9, 1), (holding 5 [] []).keyring)
unfolding get_random_keypair HashMap.get ℕ_discrete
key_kept = refl

free : session_of sample 7 fresh ≡ none
unfolding HashMap.get
free = refl

abbrev first_creation : Decoded sample draws (creation (some 7)) fresh
first_creation = decoded fresh (holding 5 [] []).keyring (some 7) key_drawn

abbrev first_of_race : TaskProvisioner sample
first_of_race =
    after_first sample draws draws (creation (some 7)) (creation (some 7)) fresh 7 refl refl free
      first_creation

abbrev second_creation : Decoded sample draws (creation (some 7)) first_of_race
second_creation = decoded first_of_race (holding 5 [] []).keyring (some 7) key_kept

abbrev second_of_race : TaskProvisioner sample
second_of_race =
    after_second sample draws draws (creation (some 7)) (creation (some 7)) fresh 7 refl refl free
      first_creation second_creation

create_race_example :
    Overtakes sample draws draws
      (creation (some 7))
      (creation (some 7))
      fresh
      7
      refl
      refl
      free
      first_creation
    × Follows sample draws draws
        (creation (some 7))
        (creation (some 7))
        fresh
        7
        refl
        refl
        free
        first_creation
        second_creation
    × (session_of sample 7 first_of_race
        ≡ some (made_session sample draws (creation (some 7)) fresh first_creation))
    × (handle_create_session sample draws (creation (some 7)) first_of_race
        ≡ (err (session_exists 7), first_of_race))
    × (session_of sample 7 second_of_race
        ≡ some (made_session sample draws (creation (some 7)) first_of_race second_creation))
create_race_example =
    create_race sample draws draws (creation (some 7)) (creation (some 7)) fresh 7 refl refl free
      first_creation second_creation

creates :
    Reach sample
      (record { provisioner = new_provisioner sample [] settings; pending = [] })
      (record { provisioner = holding 7 [] []; pending = [] })
unfolding HashMap.get choose_id new_provisioner build_session decode_marked ℕ_discrete nonempty
    get_random_keypair empty_registry keypair HashMap.insert
creates =
    Reach.next
      (Reach.next (Reach.next Reach.here (Step.choose draws (creation (some 7)) 7 refl)) (
        Step.build [] [] draws (creation (some 7)) 7 (session_with [])
          (record (new_provisioner sample [] settings) { keyring = (holding 7 [] []).keyring }) refl
          refl))
      (Step.insert [] [] 7 (session_with []) refl)

Reach-IsValid_example : IsValid sample (record { provisioner = holding 7 [] []; pending = [] })
Reach-IsValid_example = Reach-IsValid sample sample-IsDatastore [] settings creates

abbrev pub two_arrivals : List (Arrival sample)
two_arrivals =
    record {
      ambient = draws;
      method = post_method;
      route = some Route.create_session;
      body = some (create_request (creation (some 7)));
    }
    ∷ record {
      ambient = draws;
      method = post_method;
      route = some Route.start_round;
      body = some (start_request (start_42 7));
    }
    ∷ []

handle_get_vdaf_parameter_iff_example :
    (handle_get_vdaf_parameter sample ask_42 (holding 7 (42 ∷ []) [])
      ≡ (ok parameter, holding 7 (42 ∷ []) []))
    ↔ ((v : TrainingSession sample) × Holder sample 42 (holding 7 (42 ∷ []) []).training_sessions v
        × (v.vdaf_parameter ≡ parameter))
unfolding decode_marked ℕ_discrete single HashMap.get
handle_get_vdaf_parameter_iff_example =
    handle_get_vdaf_parameter_iff sample ask_42 (holding 7 (42 ∷ []) []) (42 ∷ []) 42 refl refl
      (refl, tt) parameter

only_3 : Unheld sample 42 (holding 7 (3 ∷ []) []).training_sessions
unfolding HashMap.get
only_3 sid v e has = ground arith

-- The two requests leave the task in the session.
served-Holds : Holds sample 42 7 (served sample plain_answer two_arrivals fresh)
unfolding serve handle_create_session handle_start_round choose_id build_session HashMap.get
    HashMap.insert ℕ_discrete decode_marked nonempty get_random_keypair keypair single task_of
    provision_task run find put
served-Holds = (session_with (42 ∷ []), refl, refl)

served_gains_example :
    Holds sample 42 7 fresh ⊎ Accepted sample 42 7 plain_answer two_arrivals fresh
served_gains_example =
    served_gains sample 42 7 plain_answer sample-IsTransactional two_arrivals fresh served-Holds

fetch_keypair_others_example :
    stored sample 9 (fetch_keypair sample 1 8 (holding 5 [] []).keyring).1
    ≡ stored sample 9 (holding 5 [] []).keyring
fetch_keypair_others_example =
    fetch_keypair_others sample 1 8 9 (holding 5 [] []).keyring (inr (λ e. cc))
