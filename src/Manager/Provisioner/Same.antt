-- ===== src/Manager/Provisioner/Same.antt =====
-- Provisioners that hold the same, whatever the order of their hash maps, and what the handlers make
-- of them.
pub mod Creation
pub mod Starting
pub mod Serving
use dpsa4fl.Base.{
  Option, keypair_unwrap, task_error, todo, clock_error, codec_error, base64_error, no_session,
  no_session_to_remove, ite, ℕ, ℕ_discrete, ◌≡◌, ◌∙◌, refl, sym, inl, inr, arith, List, none, some,
  Outcome, ok, err, panic, push, Option-cases, is_ok, Outcome-cases,
}
use dpsa4fl.Base.HashMap
use dpsa4fl.External.{Janus}
use dpsa4fl.Manager.Messages.{Ambient, StartRoundRequest, CreateTrainingSessionRequest, random_u8}
use dpsa4fl.Manager.Keyring.{HpkeConfigRegistry, stored, generate, get_random_keypair}
use dpsa4fl.Manager.Provisioner.State.{
  on_keyring, TrainingSession, TaskProvisioner, session_of, insert_session, remove_session,
  session_of-insert_session,
}
use dpsa4fl.Manager.Provisioner.Provision.{provision_task}
use dpsa4fl.Manager.Provisioner.Handlers.{
  task_parameters, task_of, handle_start_round, choose_id, build_session, handle_create_session,
  handle_end_session,
}

module _ (J : Janus) where
  open J use {hpke_config_id, hpke_config_id_discrete}

  pub record Same (s t : TaskProvisioner J) : Type 0 where
    pub datastore : s.datastore ≡ t.datastore
    pub config : s.config ≡ t.config
    pub sessions : (sid : ℕ) → session_of J sid s ≡ session_of J sid t
    pub keys : (id : J.HpkeConfigId) → stored J id s.keyring ≡ stored J id t.keyring

  pub Same-refl : (s : TaskProvisioner J) → Same s s
  Same-refl s = record {
    datastore = refl;
    config = refl;
    sessions = λ sid. refl;
    keys = λ id. refl;
  }

  -- The same outcome, and states that hold the same.
  abbrev pub SameResult :
      {A : Type 0} → Outcome A × TaskProvisioner J → Outcome A × TaskProvisioner J → Type 0
  SameResult r r' = (r.0 ≡ r'.0) × Same r.1 r'.1

  pub insert_session-Same :
      (sid : ℕ) (v : TrainingSession J) (s t : TaskProvisioner J)
      → Same s t
      → Same (insert_session J sid v s) (insert_session J sid v t)
  insert_session-Same sid v s t h = record {
    datastore = h.datastore;
    config = h.config;
    sessions = λ other. ground (
      arith,
      session_of-insert_session J other sid v s,
      session_of-insert_session J other sid v t,
      h.sessions other,
    );
    keys = h.keys;
  }

  -- Results that have been computed.
  pub both_are :
      {A : Type 0} {r r' : Outcome A × TaskProvisioner J} (x : Outcome A) (s t : TaskProvisioner J)
      → r ≡ (x, s)
      → r' ≡ (x, t)
      → Same s t
      → SameResult r r'
  both_are x s t e e' h = rw (e, e') (refl, h)

  remove_session-Same :
      (sid : ℕ) (s t : TaskProvisioner J)
      → Same s t
      → Same (remove_session J sid s) (remove_session J sid t)
  remove_session-Same sid s t h = record {
    datastore = h.datastore;
    config = h.config;
    sessions = λ other. ground (
      arith,
      HashMap.get-remove ℕ_discrete other sid s.training_sessions,
      HashMap.get-remove ℕ_discrete other sid t.training_sessions,
      h.sessions other,
    );
    keys = h.keys;
  }

  pub handle_end_session-Same :
      (sid : ℕ) (s t : TaskProvisioner J)
      → Same s t
      → SameResult (handle_end_session J sid s) (handle_end_session J sid t)
  unfolding handle_end_session
  handle_end_session-Same sid s t h =
      let same : session_of J sid s ≡ session_of J sid t = h.sessions sid in
      elim (Option-cases (session_of J sid s)) [
        | inl e ↦ both_are (err (no_session_to_remove sid)) s t (ground arith) (ground arith) h
        | inr (v, e) ↦
            both_are (ok tt) (remove_session J sid s) (remove_session J sid t) (ground arith)
              (ground arith) (remove_session-Same sid s t h)
      ]

  -- The id of a creation is chosen without a change.
  pub choose_id-Same :
      (a : Ambient J) (wanted : Option ℕ) (s t : TaskProvisioner J)
      → Same s t
      → ((choose_id J a wanted s).0 ≡ (choose_id J a wanted t).0)
        × ((choose_id J a wanted s).1 ≡ s)
        × ((choose_id J a wanted t).1 ≡ t)
  unfolding choose_id
  choose_id-Same a none s t h = (refl, refl, refl)
  choose_id-Same a (some sid) s t h =
      let same : session_of J sid s ≡ session_of J sid t = h.sessions sid in
      elim (Option-cases (session_of J sid s)) [ inl e ↦ ground arith | inr (v, e) ↦ ground arith ]

  -- A registry with a drawn key pair.
  pub drawn_keys-Same :
      (a : Ambient J) (s t : TaskProvisioner J)
      → Same s t
      → SameResult
          (on_keyring J (get_random_keypair J a) s)
          (on_keyring J (get_random_keypair J a) t)
  unfolding get_random_keypair
  drawn_keys-Same a s t h =
      let id = hpke_config_id (random_u8 J a) in
      let same : stored J id s.keyring ≡ stored J id t.keyring = h.keys id in
      elim (Option-cases (stored J id s.keyring)) [
        | inr (k, e) ↦ both_are (ok k) s t (ground arith) (ground arith) h
        | inl e ↦ elim (Option-cases (generate J a.seed id)) [
          | inl fails ↦ both_are (panic keypair_unwrap) s t (ground arith) (ground arith) h
          | inr (k, made) ↦
              both_are (ok k) (keeping id k s) (keeping id k t) (ground arith) (ground arith)
                (record {
                  datastore = h.datastore;
                  config = h.config;
                  sessions = h.sessions;
                  keys = λ other. ground (
                    arith,
                    HashMap.get-insert hpke_config_id_discrete other id k s.keyring.keypairs,
                    HashMap.get-insert hpke_config_id_discrete other id k t.keyring.keypairs,
                    h.keys other,
                  );
                })
        ]
      ]
    where
      keeping : J.HpkeConfigId → J.HpkeKeypair → TaskProvisioner J → TaskProvisioner J
      keeping id k x = record x {
        keyring = record {
          keypairs = HashMap.insert hpke_config_id_discrete id k x.keyring.keypairs;
        };
      }
