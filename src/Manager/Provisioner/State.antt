-- ===== src/Manager/Provisioner/State.antt =====
-- The state of a task provisioner, and its parts as seen by the handlers.
use dpsa4fl.Base.{ℕ, arith, some, ite, ◌≡◌, ℕ_discrete, Option, List, [], Action}
use dpsa4fl.Base.HashMap
use dpsa4fl.Base.HashMap.{HashMap}
use dpsa4fl.External.{Janus}
use dpsa4fl.Core.Types.{MainLocations, VdafParameter}
use dpsa4fl.Manager.Messages.{TrainingSessionId}
use dpsa4fl.Manager.Keyring.{HpkeConfigRegistry, empty_registry}

module _ (J : Janus) where
  open J use {
    Url, TaskId, Role, HpkeConfig, SecretBytes, AuthenticationToken, HpkeKeypair, Datastore,
  }

  pub record TrainingSession : Type 0 where
    pub role : Role
    pub collector_hpke_config : HpkeConfig
    pub verify_key : SecretBytes
    pub collector_auth_token : AuthenticationToken
    pub leader_auth_token : AuthenticationToken
    pub hpke_config_and_key : HpkeKeypair
    pub vdaf_parameter : VdafParameter J
    pub tasks : List TaskId

  pub record TaskProvisionerConfig : Type 0 where
    pub leader_endpoint : Url
    pub helper_endpoint : Url
    pub main_locations : MainLocations J

  abbrev pub Sessions : Type 0
  Sessions = HashMap TrainingSessionId TrainingSession

  pub record TaskProvisioner : Type 0 where
    pub datastore : Datastore
    pub training_sessions : Sessions
    pub config : TaskProvisionerConfig
    pub keyring : HpkeConfigRegistry J

  -- `TaskProvisioner::new`
  unfoldable pub new_provisioner : Datastore → TaskProvisionerConfig → TaskProvisioner
  new_provisioner d c = record {
    datastore = d;
    training_sessions = [];
    config = c;
    keyring = empty_registry J;
  }

  abbrev pub session_of : TrainingSessionId → TaskProvisioner → Option TrainingSession
  session_of id s = HashMap.get ℕ_discrete id s.training_sessions

  abbrev pub insert_session :
      TrainingSessionId → TrainingSession → TaskProvisioner → TaskProvisioner
  insert_session id t s = record s {
    training_sessions = HashMap.insert ℕ_discrete id t s.training_sessions;
  }

  abbrev pub remove_session : TrainingSessionId → TaskProvisioner → TaskProvisioner
  remove_session id s = record s {
    training_sessions = HashMap.remove ℕ_discrete id s.training_sessions;
  }

  -- A call on the datastore or on the keyring alone.
  abbrev pub on_datastore : {A : Type 0} → Action Datastore A → Action TaskProvisioner A
  on_datastore m s = let (r, d) = m s.datastore in (r, record s { datastore = d })

  abbrev pub on_keyring : {A : Type 0} → Action (HpkeConfigRegistry J) A → Action TaskProvisioner A
  on_keyring m s = let (r, k) = m s.keyring in (r, record s { keyring = k })

  pub session_of-insert_session :
      (other sid : ℕ) (v : TrainingSession) (s : TaskProvisioner)
      → session_of other (insert_session sid v s)
        ≡ ite (ℕ_discrete other sid) (some v) (session_of other s)
  session_of-insert_session other sid v s =
      HashMap.get-insert ℕ_discrete other sid v s.training_sessions

  pub session_of-insert_session_self :
      (sid : ℕ) (v : TrainingSession) (s : TaskProvisioner)
      → session_of sid (insert_session sid v s) ≡ some v
  session_of-insert_session_self sid v s = ground (arith, session_of-insert_session sid sid v s)
