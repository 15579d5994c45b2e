-- ===== src/Manager/Provisioner/Race.antt =====
-- Two creations under one id, one after the other and interleaved: the test of the id and the
-- insertion are not under one lock.
use dpsa4fl.Base.{
  List, ◌∷◌, [], ℕ_discrete, ok, none, session_exists, ℕ, ◌≡◌, refl, arith, some, err,
}
use dpsa4fl.Base.HashMap
use dpsa4fl.External.{Janus}
use dpsa4fl.Manager.Messages.{random_u16, Ambient, CreateTrainingSessionRequest}
use dpsa4fl.Manager.Provisioner.State.{
  insert_session, TrainingSession, TaskProvisioner, session_of, session_of-insert_session_self,
}
use dpsa4fl.Manager.Provisioner.Handlers.{choose_id, handle_create_session}
use dpsa4fl.Manager.Provisioner.Create.{build_session_decoded, made_session, Decoded}
use dpsa4fl.Manager.Provisioner.Machine.{Step, Machine, Pending, chosen, built}

module _ (J : Janus) where
  -- A request for an id that is taken is refused, and changes nothing.
  pub create_taken :
      (a : Ambient J) (q : CreateTrainingSessionRequest J) (s : TaskProvisioner J) (sid : ℕ)
      (old : TrainingSession J)
      → q.training_session_id ≡ some sid
      → session_of J sid s ≡ some old
      → handle_create_session J a q s ≡ (err (session_exists sid), s)
  unfolding handle_create_session choose_id
  create_taken a q s sid old asked taken = ground arith

  module _ (a b : Ambient J) (q r : CreateTrainingSessionRequest J) (s : TaskProvisioner J)
      (sid : ℕ) (asked : q.training_session_id ≡ some sid)
      (asked_too : r.training_session_id ≡ some sid) (free : session_of J sid s ≡ none)
      (p : Decoded J a q s) where
    -- The provisioner once the first of the two sessions is inserted.
    abbrev pub after_first : TaskProvisioner J
    after_first = insert_session J sid (made_session J a q s p) (record s { keyring = p.keyring })

    abbrev first_session : TrainingSession J
    first_session = made_session J a q s p

    -- The machine between the steps: no other creation is under way but these two.
    abbrev at_state : TaskProvisioner J → List (Pending J) → Machine J
    at_state x ps = record { provisioner = x; pending = ps }

    -- The single steps of the first creation, up to its insertion, while the second one has passed
    -- the test and waits.
    abbrev pub Overtakes : Type 0
    Overtakes =
        Step J (at_state s []) (at_state s (chosen a q sid ∷ []))
        × Step J (at_state s (chosen a q sid ∷ []))
            (at_state s (chosen b r sid ∷ chosen a q sid ∷ []))
        × Step J (at_state s (chosen b r sid ∷ chosen a q sid ∷ [])) (
            at_state (record s { keyring = p.keyring })
              (chosen b r sid ∷ built sid first_session ∷ []))
        × Step J
            (at_state (record s { keyring = p.keyring })
              (chosen b r sid ∷ built sid first_session ∷ []))
            (at_state after_first (chosen b r sid ∷ []))

    module _ (p' : Decoded J b r after_first) where
      abbrev second_session : TrainingSession J
      second_session = made_session J b r after_first p'

      abbrev pub after_second : TaskProvisioner J
      after_second =
          insert_session J sid second_session (record after_first { keyring = p'.keyring })

      -- The single steps of the second creation.
      abbrev pub Follows : Type 0
      Follows =
          Step J (at_state after_first (chosen b r sid ∷ []))
            (at_state (record after_first { keyring = p'.keyring }) (built sid second_session ∷ []))
          × Step J
              (at_state (record after_first { keyring = p'.keyring })
                (built sid second_session ∷ []))
              (at_state after_second [])

      -- Two creations that ask for the same free id: both pass the test of the id before either
      -- inserts, in two single steps of the machine; then the first builds and inserts its session
      -- while the second waits, and then the second builds and inserts its own. The id first holds
      -- the first session, and in the end the second, although the second request would have been
      -- refused, had it come after the first insertion.
      pub create_race :
          Overtakes
          × Follows
          × (session_of J sid after_first ≡ some first_session)
          × (handle_create_session J b r after_first ≡ (err (session_exists sid), after_first))
          × (session_of J sid after_second ≡ some second_session)
      unfolding choose_id
      create_race =
          let first : session_of J sid after_first ≡ some first_session =
            session_of-insert_session_self J sid first_session (record s { keyring = p.keyring }) in
          (
            (
              Step.choose a q sid (ground arith),
              Step.choose b r sid (ground arith),
              Step.build (chosen b r sid ∷ []) [] a q sid _ _ refl
                  (build_session_decoded J a q s p),
              Step.insert (chosen b r sid ∷ []) [] sid _ refl,
            ),
            (
              Step.build [] [] b r sid _ _ refl (build_session_decoded J b r after_first p'),
              Step.insert [] [] sid _ refl,
            ),
            first,
            create_taken b r after_first sid first_session asked_too first,
            session_of-insert_session_self J sid second_session
                (record after_first { keyring = p'.keyring }),
          )

  -- A request that leaves the choice of the id to the manager is not tested: where the drawn id is
  -- taken, the old session is replaced by the new one, and none of its tasks is left in it.
  pub create_drawn_overwrites :
      (a : Ambient J) (q : CreateTrainingSessionRequest J) (s : TaskProvisioner J)
      (old : TrainingSession J)
      → q.training_session_id ≡ none
      → session_of J (random_u16 J a) s ≡ some old
      → (p : Decoded J a q s)
      → let (answer, s') = handle_create_session J a q s in
        (answer ≡ ok (random_u16 J a))
        × (session_of J (random_u16 J a) s' ≡ some (made_session J a q s p))
  unfolding handle_create_session choose_id
  create_drawn_overwrites a q s old unasked taken p = ground (
    arith,
    build_session_decoded J a q s p,
    HashMap.get-insert ℕ_discrete (random_u16 J a) (random_u16 J a) (made_session J a q s p)
        s.training_sessions,
  )
