-- ===== src/External/Laws.antt =====
-- What theorems assume of the libraries, as records of laws. `Sample` meets them all.
use dpsa4fl.Base.{ℕ, Option, some, List, Text, Outcome, ok, err, ◌≡◌, ◌≢◌, ◌⊎◌, Error}
use dpsa4fl.External.{Janus}

-- Encoded bytes and task ids decode to what they were: base64 in its URL-safe unpadded alphabet,
-- and the `Encode` and `Decode` of a task id, which is 32 bytes. `Display` of a task id prints its
-- encoding in that base64.
pub record IsCodec (J : Janus) : Type 0 where
  pub decode-encode : (b : List ℕ) → J.decode_base64 (J.encode_base64 b) ≡ some b
  pub decoded-encoded : (t : J.TaskId) → J.get_decoded (J.get_encoded t) ≡ some t
  pub text-encode : (t : J.TaskId) → J.task_id_text t ≡ J.encode_base64 (J.get_encoded t)

-- A transaction commits the state that its closure made, if that succeeded; otherwise, and where
-- the database fails, it is rolled back and reports an error.
pub record IsTransactional (J : Janus) : Type 0 where
  pub run_tx_commit :
      (name : Text) (f : J.Datastore → Outcome J.Datastore) (d d' : J.Datastore)
      → f d ≡ ok d'
      → (J.run_tx name f d ≡ (ok tt, d')) ⊎ ((e : Error) × (J.run_tx name f d ≡ (err e, d)))
  pub run_tx_rollback :
      (name : Text) (f : J.Datastore → Outcome J.Datastore) (d : J.Datastore) (e : Error)
      → f d ≡ err e
      → (e' : Error) × (J.run_tx name f d ≡ (err e', d))

-- A task that was put is found under its id, and no other task is touched; a task has the id that
-- it was made with.
pub record IsDatastore (J : Janus) : Type 0 where
  pub tx : IsTransactional J
  pub get-put_self :
      (t : J.AggregatorTask) (d d' : J.Datastore)
      → J.put_aggregator_task t d ≡ some d'
      → J.get_aggregator_task (J.id t) d' ≡ some (some t)
  pub get-put_ne :
      (t : J.AggregatorTask) (d d' : J.Datastore) (id : J.TaskId)
      → J.put_aggregator_task t d ≡ some d'
      → id ≢ J.id t
      → J.get_aggregator_task id d' ≡ J.get_aggregator_task id d
  pub id-new_aggregator_task :
      (id : J.TaskId) (peer : J.Url) (q : J.QueryType) (v : J.VdafInstance) (key : J.SecretBytes)
      (count : ℕ) (expiration : Option J.Time) (expiry : Option J.Duration) (size : ℕ)
      (precision skew : J.Duration) (keys : List J.HpkeKeypair)
      (params : J.AggregatorTaskParameters) (task : J.AggregatorTask)
      → J.new_aggregator_task id peer q v key count expiration expiry size precision skew keys
          params
        ≡ some task
      → J.id task ≡ id
