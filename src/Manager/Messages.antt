-- ===== src/Manager/Messages.antt =====
-- The messages between the controller, the clients and the janus managers
-- (src/janus_manager/interface/types.rs), and what a call draws at random or reads from the clock.
use dpsa4fl.Base.{ℕ, ◌%◌, ◌^◌, Option, List, Text}
use dpsa4fl.Core.Types.{VdafParameter}
use dpsa4fl.External.{Janus}

-- A `u16`; the conversions from and to it are the identity.
abbrev pub TrainingSessionId : Type 0
TrainingSessionId = ℕ

-- `TIME_PRECISION` of src/janus_manager/interface/network/consumer.rs, in seconds.
abbrev pub time_precision : ℕ
time_precision = 3600

module _ (J : Janus) where
  open J use {Role, HpkeConfig, Seed, TaskId, AuthenticationToken}

  -- `Encode` and `Decode` of a session id: those of its `u16`.
  unfoldable pub encode : TrainingSessionId → List ℕ → List ℕ
  encode id bytes = J.encode_u16 id bytes

  unfoldable pub decode : List ℕ → Option (TrainingSessionId × List ℕ)
  decode bytes = J.decode_u16 bytes

  pub record CreateTrainingSessionRequest : Type 0 where
    pub training_session_id : Option TrainingSessionId
    pub role : Role
    pub verify_key_encoded : Text
    pub collector_hpke_config : HpkeConfig
    pub collector_auth_token_encoded : Text
    pub leader_auth_token_encoded : Text
    pub vdaf_parameter : VdafParameter J

  -- What one call draws and reads: `random::<u16>()`, `random::<u8>()`, the randomness of key
  -- generation, `UNIX_EPOCH.elapsed()` in seconds (an error if the clock stands before the epoch),
  -- `random::<TaskId>()` and `sample_iter(Standard).take(n).collect()`. The `u16` is reduced, so
  -- that every value of this type is a `u16`.
  pub record Ambient : Type 0 where
    pub drawn_u16 : ℕ
    pub drawn_u8 : ℕ
    pub seed : Seed
    pub elapsed : Option ℕ
    pub task_id : TaskId
    pub sample : ℕ → List ℕ

  abbrev pub random_u16 : Ambient → ℕ
  random_u16 a = a.drawn_u16 % 2 ^ 16

  abbrev pub random_u8 : Ambient → ℕ
  random_u8 a = a.drawn_u8 % 2 ^ 8

pub record StartRoundRequest : Type 0 where
  pub training_session_id : TrainingSessionId
  pub task_id_encoded : Text

pub record CreateTrainingSessionResponse : Type 0 where
  pub training_session_id : TrainingSessionId

pub record GetVdafParameterRequest : Type 0 where
  pub task_id_encoded : Text

module _ (J : Janus) where
  pub record GetVdafParameterResponse : Type 0 where
    pub vdaf_parameter : VdafParameter J
