-- ===== src/Manager/Provisioner/Swap.antt =====
-- The end of a session next to a request for another session.
pub mod Order
use dpsa4fl.Base.{
  ite, Option, ℕ, ℕ_discrete, ◌≡◌, ◌≢◌, ◌∙◌, refl, sym, ap, arith, inl, inr, none, some, Outcome,
  ok, err, Action, Option-cases, modify, gets, push, todo, clock_error, codec_error, base64_error,
  no_session, task_error, no_session_to_remove, session_exists, base64_context, token_error,
}
use dpsa4fl.Base.HashMap
use dpsa4fl.External.{Janus}
use dpsa4fl.Manager.Messages.{Ambient, StartRoundRequest, CreateTrainingSessionRequest, random_u16}
use dpsa4fl.Manager.Keyring.{get_random_keypair}
use dpsa4fl.Manager.Provisioner.State.{TaskProvisioner, TrainingSession, session_of, remove_session}
use dpsa4fl.Manager.Provisioner.Provision.{provision_task}
use dpsa4fl.Manager.Provisioner.Handlers.{
  task_parameters, task_of, handle_start_round, choose_id, build_session, handle_create_session,
  handle_end_session,
}
use dpsa4fl.Manager.Provisioner.Same.{Same}
use dpsa4fl.Manager.Provisioner.Frame.{
  Framed, bind-Framed, bind_results-Framed, on_keyring-Framed, pure-Framed, fail-Framed,
  ok_or-Framed, unwrap-Framed, gets-Framed, on_datastore-Framed, session_of-remove_session,
  insert_session-Framed,
}

module _ (J : Janus) where
  -- The id that a creation asks for, or else draws.
  abbrev pub id_or_drawn : Ambient J → Option ℕ → ℕ
  id_or_drawn a none = random_u16 J a
  id_or_drawn a (some other) = other

module _ (J : Janus) (sid : ℕ) where
  pub start_round-Framed :
      (a : Ambient J) (q : StartRoundRequest)
      → q.training_session_id ≢ sid
      → Framed J sid (handle_start_round J a q)
  unfolding handle_start_round task_of
  start_round-Framed a q ne =
      bind-Framed J sid _ _
        (gets-Framed J sid (session_of J q.training_session_id)
          (session_of-remove_session J sid q.training_session_id ne))
        λ found.
          bind-Framed J sid _ _ (ok_or-Framed J sid found (no_session q.training_session_id))
            λ session.
              bind-Framed J sid _ _
                (ok_or-Framed J sid (J.decode_base64 q.task_id_encoded) base64_error)
                λ bytes.
                  bind-Framed J sid _ _ (ok_or-Framed J sid (J.get_decoded bytes) codec_error)
                    λ task_id.
                      bind-Framed J sid _ _ (ok_or-Framed J sid a.elapsed clock_error) λ seconds.
                        bind-Framed J sid _ _ (unwrap-Framed J sid (task_parameters J session) todo)
                          λ params.
                            bind-Framed J sid _ _
                              (gets-Framed J sid (λ p. task_of J p session task_id params)
                                (λ s. refl))
                              λ made.
                                bind-Framed J sid _ _ (ok_or-Framed J sid made task_error) λ task.
                                  bind-Framed J sid _ _
                                    (on_datastore-Framed J sid (provision_task J task))
                                    λ done.
                                      insert_session-Framed J sid q.training_session_id
                                        (record session { tasks = push session.tasks task_id }) ne

  choose_id-Framed :
      (a : Ambient J) (o : Option ℕ) → id_or_drawn J a o ≢ sid → Framed J sid (choose_id J a o)
  unfolding choose_id
  choose_id-Framed a none ne = pure-Framed J sid (random_u16 J a)
  choose_id-Framed a (some other) ne = record {
    on_rest = λ s. ground (arith, session_of-remove_session J sid other ne s);
    keeps = λ s. ground arith;
  }

  choose_id_chosen :
      (a : Ambient J) (o : Option ℕ) (s t : TaskProvisioner J) (other : ℕ)
      → choose_id J a o s ≡ (ok other, t)
      → id_or_drawn J a o ≡ other
  unfolding choose_id
  choose_id_chosen a none s t other h = cc
  choose_id_chosen a (some wanted) s t other h = ground arith

  build_session-Framed :
      (a : Ambient J) (q : CreateTrainingSessionRequest J) → Framed J sid (build_session J a q)
  unfolding build_session
  build_session-Framed a q =
      bind-Framed J sid _ _
        (ok_or-Framed J sid (J.decode_base64 q.collector_auth_token_encoded) base64_context)
        λ bytes.
          bind-Framed J sid _ _
            (ok_or-Framed J sid (J.new_bearer_token_from_bytes bytes) token_error)
            λ collector.
              bind-Framed J sid _ _
                (ok_or-Framed J sid (J.new_bearer_token_from_bytes q.leader_auth_token_encoded)
                  token_error)
                λ leader.
                  bind-Framed J sid _ _
                    (ok_or-Framed J sid (J.decode_base64 q.verify_key_encoded) base64_context)
                    λ key.
                      bind-Framed J sid _ _ (on_keyring-Framed J sid (get_random_keypair J a))
                        λ pair. pure-Framed J sid _

  pub create_session-Framed :
      (a : Ambient J) (q : CreateTrainingSessionRequest J)
      → id_or_drawn J a q.training_session_id ≢ sid
      → Framed J sid (handle_create_session J a q)
  unfolding handle_create_session
  create_session-Framed a q ne =
      bind_results-Framed J sid (λ other. id_or_drawn J a q.training_session_id ≡ other) _ _
        (choose_id-Framed a q.training_session_id ne)
        (λ s t other. choose_id_chosen a q.training_session_id s t other)
        λ other same. bind-Framed J sid _ _ (build_session-Framed a q) λ session.
          bind-Framed J sid _ _ (insert_session-Framed J sid other session (λ e. ne (same ∙ e)))
            λ done. pure-Framed J sid other

  pub end_session-Framed : (other : ℕ) → other ≢ sid → Framed J sid (handle_end_session J other)
  unfolding handle_end_session
  end_session-Framed other ne = record {
    on_rest = λ s. ground (
      arith,
      session_of-remove_session J sid other ne s,
      HashMap.remove-remove_comm ℕ_discrete sid other s.training_sessions,
    );
    keeps = λ s. ground (arith, HashMap.get-remove ℕ_discrete sid other s.training_sessions);
  }
