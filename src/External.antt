-- ===== src/External.antt =====
-- The libraries that the program calls (url, base64, prio, janus), as the types and functions that
-- the source uses of them. Nothing is assumed of them here; `External/Laws` names what theorems
-- assume. A result that may be an error is an `Option`.
pub mod Laws
pub mod Numbers
pub mod Sample
use dpsa4fl.Base.{ℕ, Option, List, Text, Outcome}
use dpsa4fl.Core.Tag.{FixedTypeTag}

pub record Janus : Type 1 where
  -- url::Url
  pub Url : Type 0
  pub url_discrete : Discrete Url
  pub join : Url → Text → Option Url
  pub host : Url → Option Text
  pub port : Url → Option ℕ
  -- reqwest::Client, and `default_http_client` of janus_client
  pub HttpClient : Type 0
  pub new_http_client : HttpClient
  pub default_http_client : Option HttpClient
  -- base64::engine::general_purpose::URL_SAFE_NO_PAD
  pub encode_base64 : List ℕ → Text
  pub decode_base64 : Text → Option (List ℕ)
  -- prio::codec: `u16` appended to bytes, and read from their front
  pub encode_u16 : ℕ → List ℕ → List ℕ
  pub decode_u16 : List ℕ → Option (ℕ × List ℕ)
  -- janus_messages
  pub TaskId : Type 0
  pub task_id_discrete : Discrete TaskId
  pub get_encoded : TaskId → List ℕ
  pub get_decoded : List ℕ → Option TaskId
  pub task_id_text : TaskId → Text
  pub Role : Type 0
  pub role_discrete : Discrete Role
  pub leader : Role
  pub helper : Role
  pub Duration : Type 0
  pub duration_discrete : Discrete Duration
  pub duration_from_seconds : ℕ → Duration
  pub Time : Type 0
  pub time_discrete : Discrete Time
  pub time_from_seconds_since_epoch : ℕ → Time
  pub Interval : Type 0
  pub new_interval : Time → Duration → Option Interval
  pub HpkeConfig : Type 0
  pub hpke_config_discrete : Discrete HpkeConfig
  pub HpkeConfigId : Type 0
  pub hpke_config_id_discrete : Discrete HpkeConfigId
  pub hpke_config_id : ℕ → HpkeConfigId
  pub HpkeKemId : Type 0
  pub x25519_hkdf_sha256 : HpkeKemId
  pub HpkeKdfId : Type 0
  pub hkdf_sha256 : HpkeKdfId
  pub HpkeAeadId : Type 0
  pub aes_128_gcm : HpkeAeadId
  pub aes_256_gcm : HpkeAeadId
  -- janus_core::hpke, with the randomness that key generation draws
  pub Seed : Type 0
  pub HpkeKeypair : Type 0
  pub config : HpkeKeypair → HpkeConfig
  pub generate_hpke_config_and_private_key :
      Seed → HpkeConfigId → HpkeKemId → HpkeKdfId → HpkeAeadId → Option HpkeKeypair
  -- janus_core::auth_tokens
  pub AuthenticationToken : Type 0
  pub new_bearer_token_from_bytes : List ℕ → Option AuthenticationToken
  pub token_bytes : AuthenticationToken → List ℕ
  pub AuthenticationTokenHash : Type 0
  pub hash_token : AuthenticationToken → AuthenticationTokenHash
  -- prio::dp and janus_core::vdaf
  pub ZCdpBudget : Type 0
  pub budget_discrete : Discrete ZCdpBudget
  pub ZCdpDiscreteGaussian : Type 0
  pub from_budget : ZCdpBudget → ZCdpDiscreteGaussian
  pub BitSize : Type 0
  pub bit_size_16 : BitSize
  pub bit_size_32 : BitSize
  pub VdafInstance : Type 0
  pub vdaf_discrete : Discrete VdafInstance
  pub prio3_fixed_point_bounded_l2_vec_sum : ℕ → BitSize → ZCdpDiscreteGaussian → VdafInstance
  pub verify_key_length : VdafInstance → ℕ
  -- prio::vdaf::prio3: the number of aggregators and the length, at a fixed-point type
  pub Prio3 : FixedTypeTag → Type 0
  pub new_fixedpoint_boundedl2_vec_sum : (tag : FixedTypeTag) → ℕ → ℕ → Option (Prio3 tag)
  -- janus_aggregator_core::task
  pub SecretBytes : Type 0
  pub secret_discrete : Discrete SecretBytes
  pub new_secret_bytes : List ℕ → SecretBytes
  pub AggregatorTaskParameters : Type 0
  pub leader_parameters :
      AuthenticationToken → AuthenticationTokenHash → HpkeConfig → AggregatorTaskParameters
  pub helper_parameters : AuthenticationTokenHash → HpkeConfig → AggregatorTaskParameters
  pub QueryType : Type 0
  pub query_type_discrete : Discrete QueryType
  pub time_interval : QueryType
  pub AggregatorTask : Type 0
  -- in the order of the arguments: task id, peer endpoint, query type, vdaf, verify key,
  -- max batch query count, task expiration, report expiry age, min batch size, time precision,
  -- tolerable clock skew, hpke keys, role parameters
  pub new_aggregator_task :
      TaskId
      → Url
      → QueryType
      → VdafInstance
      → SecretBytes
      → ℕ
      → Option Time
      → Option Duration
      → ℕ
      → Duration
      → Duration
      → List HpkeKeypair
      → AggregatorTaskParameters
      → Option AggregatorTask
  pub id : AggregatorTask → TaskId
  pub peer_aggregator_endpoint : AggregatorTask → Url
  pub query_type : AggregatorTask → QueryType
  pub vdaf : AggregatorTask → VdafInstance
  pub opaque_vdaf_verify_key : AggregatorTask → SecretBytes
  pub role : AggregatorTask → Role
  pub max_batch_query_count : AggregatorTask → ℕ
  pub task_expiration : AggregatorTask → Option Time
  pub min_batch_size : AggregatorTask → ℕ
  pub time_precision : AggregatorTask → Duration
  pub collector_hpke_config : AggregatorTask → Option HpkeConfig
  -- janus_aggregator_core::datastore: the state, the two queries of a transaction, and `run_tx`,
  -- which runs the closure on the state and commits or rolls back
  pub Datastore : Type 0
  pub get_aggregator_task : TaskId → Datastore → Option (Option AggregatorTask)
  pub put_aggregator_task : AggregatorTask → Datastore → Option Datastore
  pub run_tx : Text → (Datastore → Outcome Datastore) → Datastore → Outcome (Unit {0}) × Datastore
