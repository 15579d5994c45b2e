-- ===== src/Manager/Provisioner/Same/Creation.antt =====
-- The creation of a session at provisioners that hold the same.
use dpsa4fl.Base.{
  ℕ, ◌≡◌, refl, inl, inr, arith, List, [], some, Outcome, ok, err, panic, Option-cases,
  base64_context, token_error,
}
use dpsa4fl.External.{Janus}
use dpsa4fl.Manager.Messages.{Ambient, CreateTrainingSessionRequest}
use dpsa4fl.Manager.Keyring.{get_random_keypair}
use dpsa4fl.Manager.Provisioner.State.{TrainingSession, TaskProvisioner, insert_session, on_keyring}
use dpsa4fl.Manager.Provisioner.Handlers.{choose_id, build_session, handle_create_session}
use dpsa4fl.Manager.Provisioner.Same.{
  Same, SameResult, both_are, insert_session-Same, choose_id-Same, drawn_keys-Same,
}

module _ (J : Janus) (a : Ambient J) (q : CreateTrainingSessionRequest J) (s t : TaskProvisioner J)
    (h : Same J s t) where
  open J use {decode_base64, new_bearer_token_from_bytes}

  abbrev drawn : TaskProvisioner J → Outcome J.HpkeKeypair × TaskProvisioner J
  drawn x = on_keyring J (get_random_keypair J a) x

  -- The end of the building of a session: the draw of its key pair.
  keyed-Same :
      (cb : List ℕ) (ct lt : J.AuthenticationToken) (kb : List ℕ)
      → decode_base64 q.collector_auth_token_encoded ≡ some cb
      → new_bearer_token_from_bytes cb ≡ some ct
      → new_bearer_token_from_bytes q.leader_auth_token_encoded ≡ some lt
      → decode_base64 q.verify_key_encoded ≡ some kb
      → SameResult J (build_session J a q s) (build_session J a q t)
  unfolding build_session
  keyed-Same cb ct lt kb e1 e2 e3 e4 = by_result (drawn s).0 refl
    where
      same : SameResult J (drawn s) (drawn t)
      same = drawn_keys-Same J a s t h

      made : J.HpkeKeypair → TrainingSession J
      made k = record {
        role = q.role;
        collector_hpke_config = q.collector_hpke_config;
        verify_key = J.new_secret_bytes kb;
        collector_auth_token = ct;
        leader_auth_token = lt;
        hpke_config_and_key = k;
        vdaf_parameter = q.vdaf_parameter;
        tasks = [];
      }

      by_result :
          (x : Outcome J.HpkeKeypair)
          → (drawn s).0 ≡ x
          → SameResult J (build_session J a q s) (build_session J a q t)
      by_result (ok k) e =
          both_are J (ok (made k)) (drawn s).1 (drawn t).1 (ground arith) (ground (arith, same.0))
            same.1
      by_result (err x) e =
          both_are J (err x) (drawn s).1 (drawn t).1 (ground arith) (ground (arith, same.0)) same.1
      by_result (panic x) e =
          both_are J (panic x) (drawn s).1 (drawn t).1 (ground arith) (ground (arith, same.0))
            same.1

  build_session-Same : SameResult J (build_session J a q s) (build_session J a q t)
  unfolding build_session
  build_session-Same = elim (Option-cases (decode_base64 q.collector_auth_token_encoded)) [
    | inl e ↦ both_are J (err base64_context) s t (ground arith) (ground arith) h
    | inr (cb, e1) ↦ elim (Option-cases (new_bearer_token_from_bytes cb)) [
      | inl e ↦ both_are J (err token_error) s t (ground arith) (ground arith) h
      | inr (ct, e2) ↦
          elim (Option-cases (new_bearer_token_from_bytes q.leader_auth_token_encoded)) [
            | inl e ↦ both_are J (err token_error) s t (ground arith) (ground arith) h
            | inr (lt, e3) ↦ elim (Option-cases (decode_base64 q.verify_key_encoded)) [
              | inl e ↦ both_are J (err base64_context) s t (ground arith) (ground arith) h
              | inr (kb, e4) ↦ keyed-Same cb ct lt kb e1 e2 e3 e4
            ]
          ]
    ]
  ]

  abbrev IsSameCreation : Type 0
  IsSameCreation = SameResult J (handle_create_session J a q s) (handle_create_session J a q t)

  -- A creation whose id is chosen.
  chosen-Same : (sid : ℕ) → (choose_id J a q.training_session_id s).0 ≡ ok sid → IsSameCreation
  unfolding handle_create_session
  chosen-Same sid e = by_result (build_session J a q s).0 refl
    where
      ids :
          ((choose_id J a q.training_session_id s).0 ≡ (choose_id J a q.training_session_id t).0)
          × ((choose_id J a q.training_session_id s).1 ≡ s)
          × ((choose_id J a q.training_session_id t).1 ≡ t)
      ids = choose_id-Same J a q.training_session_id s t h

      built : SameResult J (build_session J a q s) (build_session J a q t)
      built = build_session-Same

      by_result : (x : Outcome (TrainingSession J)) → (build_session J a q s).0 ≡ x → IsSameCreation
      by_result (ok v) r =
          both_are J (ok sid) (insert_session J sid v (build_session J a q s).1)
            (insert_session J sid v (build_session J a q t).1) (ground (arith, ids.1))
            (ground (arith, ids.0, ids.2, built.0))
            (insert_session-Same J sid v (build_session J a q s).1 (build_session J a q t).1
              built.1)
      by_result (err x) r =
          both_are J (err x) (build_session J a q s).1 (build_session J a q t).1
            (ground (arith, ids.1)) (ground (arith, ids.0, ids.2, built.0)) built.1
      by_result (panic x) r =
          both_are J (panic x) (build_session J a q s).1 (build_session J a q t).1
            (ground (arith, ids.1)) (ground (arith, ids.0, ids.2, built.0)) built.1

  pub handle_create_session-Same : IsSameCreation
  unfolding handle_create_session
  handle_create_session-Same = by_result (choose_id J a q.training_session_id s).0 refl
    where
      ids :
          ((choose_id J a q.training_session_id s).0 ≡ (choose_id J a q.training_session_id t).0)
          × ((choose_id J a q.training_session_id s).1 ≡ s)
          × ((choose_id J a q.training_session_id t).1 ≡ t)
      ids = choose_id-Same J a q.training_session_id s t h

      by_result : (x : Outcome ℕ) → (choose_id J a q.training_session_id s).0 ≡ x → IsSameCreation
      by_result (ok sid) e = chosen-Same sid e
      by_result (err x) e =
          both_are J (err x) s t (ground (arith, ids.1)) (ground (arith, ids.0, ids.2)) h
      by_result (panic x) e =
          both_are J (panic x) s t (ground (arith, ids.1)) (ground (arith, ids.0, ids.2)) h
