-- ===== src/External/Sample.antt =====
-- Small libraries that compute: an instance of `Janus` on which the tests run, and the proof that it
-- has every law that the theorems assume.
use dpsa4fl.Base.{
  ◌%◌, ◌/◌, ◌+◌, ◌*◌, ◌++◌, ℕ, ℕ_discrete, zero, suc, List, [], ◌∷◌, Option, none, some, Outcome,
  ok, err, panic, Text, ◌≡◌, refl, inl, arith, ite,
}
use dpsa4fl.External.{Janus}
use dpsa4fl.External.Laws.{IsCodec, IsTransactional, IsDatastore}

unfoldable pub list_discrete : Discrete (List ℕ)
list_discrete [] [] = yes refl
list_discrete [] (y ∷ ys) = no (λ e. cc)
list_discrete (x ∷ xs) [] = no (λ e. cc)
list_discrete (x ∷ xs) (y ∷ ys) = both (ℕ_discrete x y) (list_discrete xs ys)
  where
    both : Dec (x ≡ y) → Dec (xs ≡ ys) → Dec (x ∷ xs ≡ y ∷ ys)
    both (yes p) (yes q) = yes (cc)
    both (yes p) (no n) = no (λ e. n (cc))
    both (no n) d = no (λ e. n (cc))

-- Encoded bytes carry a mark in front.
unfoldable pub decode_marked : Text → Option (List ℕ)
decode_marked [] = none
decode_marked (c ∷ b) = ite (ℕ_discrete c 64) (some b) none

unfoldable pub single : List ℕ → Option ℕ
single (t ∷ []) = some t
single _ = none

unfoldable pub two_bytes : List ℕ → Option (ℕ × List ℕ)
two_bytes (h ∷ l ∷ b) = some (h * 256 + l, b)
two_bytes _ = none

-- A token is any text but the empty one, and key generation fails on the seed 0.
unfoldable pub nonempty : List ℕ → Option (List ℕ)
nonempty [] = none
nonempty (c ∷ b) = some (c ∷ b)

unfoldable pub keypair : ℕ → ℕ → Option (ℕ × ℕ)
keypair zero id = none
keypair (suc n) id = some (id, suc n)

pub record Task : Type 0 where
  pub id : ℕ
  pub peer : Text
  pub vdaf : ℕ
  pub key : List ℕ
  pub role : ℕ
  pub precision : ℕ
  pub config : ℕ

unfoldable pub find : ℕ → List Task → Option Task
find t [] = none
find t (x ∷ d) = ite (ℕ_discrete t x.id) (some x) (find t d)

unfoldable pub put : Task → List Task → Option (List Task)
unfolding find
put t d = elim (find t.id d) [ none ↦ some (t ∷ d) | some old ↦ none ]

unfoldable pub run : (List Task → Outcome (List Task)) → List Task → Outcome (Unit {0}) × List Task
run f d = elim (f d) [ ok d' ↦ (ok tt, d') | err e ↦ (err e, d) | panic p ↦ (panic p, d) ]

abbrev pub sample : Janus
sample = record {
  Url = Text;
  url_discrete = list_discrete;
  join = λ u p. some (u ++ p);
  host = λ u. some u;
  port = λ u. single u;
  HttpClient = Unit {0};
  new_http_client = tt;
  default_http_client = some tt;
  encode_base64 = λ b. 64 ∷ b;
  decode_base64 = decode_marked;
  encode_u16 = λ n b. b ++ (n / 256 ∷ n % 256 ∷ []);
  decode_u16 = two_bytes;
  TaskId = ℕ;
  task_id_discrete = ℕ_discrete;
  get_encoded = λ t. t ∷ [];
  get_decoded = single;
  task_id_text = λ t. 64 ∷ t ∷ [];
  Role = ℕ;
  role_discrete = ℕ_discrete;
  leader = 2;
  helper = 3;
  Duration = ℕ;
  duration_discrete = ℕ_discrete;
  duration_from_seconds = λ n. n;
  Time = ℕ;
  time_discrete = ℕ_discrete;
  time_from_seconds_since_epoch = λ n. n;
  Interval = ℕ × ℕ;
  new_interval = λ t d. some (t, d);
  HpkeConfig = ℕ;
  hpke_config_discrete = ℕ_discrete;
  HpkeConfigId = ℕ;
  hpke_config_id_discrete = ℕ_discrete;
  hpke_config_id = λ n. n;
  HpkeKemId = Unit {0};
  x25519_hkdf_sha256 = tt;
  HpkeKdfId = Unit {0};
  hkdf_sha256 = tt;
  HpkeAeadId = ℕ;
  aes_128_gcm = 1;
  aes_256_gcm = 2;
  Seed = ℕ;
  HpkeKeypair = ℕ × ℕ;
  config = λ k. k.0;
  generate_hpke_config_and_private_key = λ seed id kem kdf aead. keypair seed id;
  AuthenticationToken = List ℕ;
  new_bearer_token_from_bytes = nonempty;
  token_bytes = λ t. t;
  AuthenticationTokenHash = List ℕ;
  hash_token = λ t. t;
  ZCdpBudget = ℕ;
  budget_discrete = ℕ_discrete;
  ZCdpDiscreteGaussian = ℕ;
  from_budget = λ b. b;
  BitSize = ℕ;
  bit_size_16 = 16;
  bit_size_32 = 32;
  VdafInstance = ℕ;
  vdaf_discrete = ℕ_discrete;
  prio3_fixed_point_bounded_l2_vec_sum = λ len bits noise. len * 100 + bits;
  verify_key_length = λ v. 16;
  Prio3 = λ tag. ℕ;
  new_fixedpoint_boundedl2_vec_sum = λ tag n len. some len;
  SecretBytes = List ℕ;
  secret_discrete = list_discrete;
  new_secret_bytes = λ b. b;
  AggregatorTaskParameters = ℕ × ℕ;
  leader_parameters = λ token hash config. (2, config);
  helper_parameters = λ hash config. (3, config);
  QueryType = ℕ;
  query_type_discrete = ℕ_discrete;
  time_interval = 1;
  AggregatorTask = Task;
  new_aggregator_task = λ id peer q v key count expiration expiry size precision skew keys params.
      some (record {
        id = id;
        peer = peer;
        vdaf = v;
        key = key;
        role = params.0;
        precision = precision;
        config = params.1;
      });
  id = λ t. t.id;
  peer_aggregator_endpoint = λ t. t.peer;
  query_type = λ t. 1;
  vdaf = λ t. t.vdaf;
  opaque_vdaf_verify_key = λ t. t.key;
  role = λ t. t.role;
  max_batch_query_count = λ t. 10;
  task_expiration = λ t. none;
  min_batch_size = λ t. 2;
  time_precision = λ t. t.precision;
  collector_hpke_config = λ t. some t.config;
  Datastore = List Task;
  get_aggregator_task = λ t d. some (find t d);
  put_aggregator_task = put;
  run_tx = λ name f d. run f d;
}

pub sample-IsCodec : IsCodec sample
unfolding decode_marked single
sample-IsCodec = record {
  decode-encode = λ b. ground arith;
  decoded-encoded = λ t. refl;
  text-encode = λ t. refl;
}

pub sample-IsTransactional : IsTransactional sample
unfolding run
sample-IsTransactional = record {
  run_tx_commit = λ name f d d' e. inl (ground arith);
  run_tx_rollback = λ name f d e h. (e, ground arith);
}

put-cons : (t : Task) (d d' : List Task) → put t d ≡ some d' → d' ≡ t ∷ d
unfolding put
put-cons t d d' h = ground arith

find-cons :
    (i : ℕ) (t : Task) (d : List Task)
    → find i (t ∷ d) ≡ ite (ℕ_discrete i t.id) (some t) (find i d)
unfolding find
find-cons i t d = refl

pub sample-IsDatastore : IsDatastore sample
sample-IsDatastore = record {
  tx = sample-IsTransactional;
  get-put_self = λ t d d' h. rw (put-cons t d d' h) (ground (arith, find-cons t.id t d));
  get-put_ne = λ t d d' id h ne. rw (put-cons t d d' h) (ground (arith, find-cons id t d));
  id-new_aggregator_task =
      λ id peer q v key count expiration expiry size precision skew keys params task h.
        ground arith;
}
