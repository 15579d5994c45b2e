-- ===== src/Examples/Data.antt =====
-- The concrete values of the tests: two aggregators, their sessions, requests and addresses.
use dpsa4fl.Manager.Network.{Network}
use dpsa4fl.Base.{ℕ_discrete, ℕ, ◌≡◌, refl, List, [], ◌∷◌, Option, none, some, Text, ite}
use dpsa4fl.External.Sample.{sample, list_discrete, Task}
use dpsa4fl.Core.Tag.{fixed_type_16_bit}
use dpsa4fl.Core.Types.{MainLocations, ManagerLocations, Locations, VdafParameter}
use dpsa4fl.Manager.Messages.{
  Ambient, CreateTrainingSessionRequest, StartRoundRequest, GetVdafParameterRequest,
}
use dpsa4fl.Manager.Http.{Route, Response, other_document, path}
use dpsa4fl.Manager.Provisioner.State.{TrainingSession, TaskProvisionerConfig, TaskProvisioner}
use dpsa4fl.Manager.Server.{Rejection}
use dpsa4fl.Manager.Consumer.{JanusManagerClient}
use dpsa4fl.System.World.{
  deployed, Party, leader_party, helper_party, World, Deployment, LeadsTo, delivered,
}

abbrev pub draws : Ambient sample
draws = record {
  drawn_u16 = 5;
  drawn_u8 = 9;
  seed = 1;
  elapsed = some 100000;
  task_id = 42;
  sample = λ n. 1 ∷ 2 ∷ [];
}

abbrev pub parameter : VdafParameter sample
parameter = record { gradient_len = 2; privacy_parameter = 1; submission_type = fixed_type_16_bit }

abbrev pub main_locations : MainLocations sample
main_locations = record { external_leader = 81 ∷ []; external_helper = 82 ∷ [] }

abbrev pub manager_locations : ManagerLocations sample
manager_locations = record { external_leader = 1 ∷ []; external_helper = 2 ∷ [] }

abbrev pub all_locations : Locations sample
all_locations = record { main = main_locations; manager = manager_locations }

abbrev pub settings : TaskProvisionerConfig sample
settings = record {
  leader_endpoint = 81 ∷ [];
  helper_endpoint = 82 ∷ [];
  main_locations = main_locations;
}

abbrev pub fresh : TaskProvisioner sample
fresh = record {
  datastore = [];
  training_sessions = [];
  config = settings;
  keyring = record { keypairs = [] };
}

abbrev pub session_with : List ℕ → TrainingSession sample
session_with tasks = record {
  role = 2;
  collector_hpke_config = 9;
  verify_key = 1 ∷ 2 ∷ [];
  collector_auth_token = 7 ∷ [];
  leader_auth_token = 64 ∷ 8 ∷ [];
  hpke_config_and_key = (9, 1);
  vdaf_parameter = parameter;
  tasks = tasks;
}

-- A provisioner that holds one session.
abbrev pub holding : ℕ → List ℕ → List Task → TaskProvisioner sample
holding sid tasks d = record {
  datastore = d;
  training_sessions = (sid, session_with tasks) ∷ [];
  config = settings;
  keyring = record { keypairs = (9, (9, 1)) ∷ [] };
}

-- The task that a start of a round with the id 42 makes.
abbrev pub task_42 : Task
task_42 = record {
  id = 42;
  peer = 82 ∷ [];
  vdaf = 216;
  key = 1 ∷ 2 ∷ [];
  role = 2;
  precision = 3600;
  config = 9;
}

abbrev pub start_42 : ℕ → StartRoundRequest
start_42 sid = record { training_session_id = sid; task_id_encoded = 64 ∷ 42 ∷ [] }

abbrev pub ask_42 : GetVdafParameterRequest
ask_42 = record { task_id_encoded = 64 ∷ 42 ∷ [] }

abbrev pub creation : Option ℕ → CreateTrainingSessionRequest sample
creation sid = record {
  training_session_id = sid;
  role = 2;
  verify_key_encoded = 64 ∷ 1 ∷ 2 ∷ [];
  collector_hpke_config = 9;
  collector_auth_token_encoded = 64 ∷ 7 ∷ [];
  leader_auth_token_encoded = 64 ∷ 8 ∷ [];
  vdaf_parameter = parameter;
}

abbrev pub controller_client : JanusManagerClient sample
controller_client = record {
  http_client = tt;
  location = all_locations;
  hpke_keypair = (9, 1);
  leader_auth_token = 8 ∷ [];
  collector_auth_token = 7 ∷ [];
  vdaf_parameter = parameter;
}

abbrev pub plain_answer : Rejection → Response sample
plain_answer r = record { status = 404; body = other_document }

-- The addresses of the two managers.
abbrev party_at : ℕ → Party
party_at b = ite (ℕ_discrete b 1) leader_party helper_party

unfoldable pub route_at : Text → Option Route
route_at u = ite (list_discrete u (path Route.create_session)) (some Route.create_session) (
    ite (list_discrete u (path Route.end_session)) (some Route.end_session) (
      ite (list_discrete u (path Route.start_round)) (some Route.start_round) (
        ite (list_discrete u (path Route.get_vdaf_parameter)) (some Route.get_vdaf_parameter) (
          ite (list_discrete u (path Route.get_main_locations)) (some Route.get_main_locations)
            none))))

unfoldable pub resolve : Text → Option (Party × Route)
unfolding route_at
resolve [] = none
resolve (b ∷ u) = elim (route_at u) [ none ↦ none | some route ↦ some (party_at b, route) ]

abbrev pub deployment : Deployment sample
deployment = record { resolve = resolve; rejected = plain_answer }

leads : (b : ℕ) (route : Route) → resolve (b ∷ path route) ≡ some (party_at b, route)
unfolding resolve route_at list_discrete ℕ_discrete
leads b Route.create_session = refl
leads b Route.end_session = refl
leads b Route.start_round = refl
leads b Route.get_vdaf_parameter = refl
leads b Route.get_main_locations = refl

pub LeadsTo-leader : LeadsTo sample deployment (1 ∷ []) leader_party
unfolding ℕ_discrete
LeadsTo-leader = record { url = λ r. 1 ∷ path r; joined = λ r. refl; resolved = λ r. leads 1 r }

pub LeadsTo-helper : LeadsTo sample deployment (2 ∷ []) helper_party
unfolding ℕ_discrete
LeadsTo-helper = record { url = λ r. 2 ∷ path r; joined = λ r. refl; resolved = λ r. leads 2 r }

-- Two provisioners, every exchange delivered, and the same draws at each.
abbrev pub world_of : TaskProvisioner sample → TaskProvisioner sample → World sample
world_of l h = record {
  leader = l;
  helper = h;
  ambient = λ n. draws;
  fate = λ n. delivered;
  others = λ n. [];
  tick = 0;
}

-- The janus client takes every gradient; the collector is out of reach.
abbrev pub services : Network sample (World sample)
services = record {
  exchange = λ q w. (none, w);
  Collector = Unit {0};
  Collection = Unit {0};
  new_collector = λ tag t u token k v. some tt;
  collect = λ c i w. (none, w);
  Client = λ tag. Unit {0};
  build = λ tag t l h d v w. (some tt, w);
  upload = λ tag c v w. (some tt, w);
}

abbrev pub network : Network sample (World sample)
network = deployed sample deployment services

-- A helper that holds one session, which is the leader's in all but its role.
abbrev pub helping : ℕ → List ℕ → List Task → TaskProvisioner sample
helping sid tasks d = record (holding sid tasks d) {
  training_sessions = (sid, record (session_with tasks) { role = 3 }) ∷ [];
}
