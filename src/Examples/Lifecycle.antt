-- ===== src/Examples/Lifecycle.antt =====
-- A client's first submission in a round that the controller has started.
use dpsa4fl.Base.{is_ok, false, ℕ, ℕ_discrete, ◌≡◌, refl, [], ◌∷◌, ok, Option, some, none, arith}
use dpsa4fl.Base.HashMap
use dpsa4fl.External.Sample.{sample, sample-IsCodec, sample-IsTransactional}
use dpsa4fl.Core.Tag.{vec_fixed_16}
use dpsa4fl.Manager.Provisioner.Handlers.{handle_end_session}
use dpsa4fl.Manager.Server.{serve}
use dpsa4fl.Client.{init_state, valid_state}
use dpsa4fl.System.Delivered.{visited}
use dpsa4fl.System.Client.{set_for}
use dpsa4fl.System.World.{World}
use dpsa4fl.System.Lifecycle.{settings_for, submit_text, started_submits}
use dpsa4fl.Controller.Session.{run_all}
use dpsa4fl.System.Retries.{IsLost, retries, end_session_stuck}
use dpsa4fl.System.World.{leader_party, answer_lost}
use dpsa4fl.Examples.Data.{world_of, fresh, holding}
use dpsa4fl.Controller.{
  api_end_session, ControllerStateImmut, Running, api_create_session, api_start_round,
}
use dpsa4fl.Examples.Data.{
  services, network, controller_client, deployment, LeadsTo-leader, LeadsTo-helper, draws,
  all_locations, parameter, main_locations, manager_locations,
}
use dpsa4fl.Examples.Runs.{
  idle, created, begun, creates_5, starts_42, stray_spares, created-Exclusive,
}

abbrev controller : ControllerStateImmut sample
controller = record {
  parametrization = record { location = all_locations; vdaf_parameter = parameter };
  permanent = record { janus_tasks_client = controller_client };
}

abbrev running : Option ℕ → Option ℕ → World sample → Running sample network
running sid t w = record {
  mstate = record { round = record { task_id = t; training_session_id = sid } };
  world = w;
}

controller_creates :
    api_create_session sample network controller draws (running none none idle)
    ≡ (ok 5, running (some 5) none created)
unfolding api_create_session
controller_creates = ground (arith, creates_5)

controller_starts :
    api_start_round sample network controller draws (running (some 5) none created)
    ≡ (ok (64 ∷ 42 ∷ []), running (some 5) (some 42) begun)
unfolding api_start_round
controller_starts = ground (arith, starts_42)

started_submits_example :
    submit_text sample deployment services
      (64 ∷ 42 ∷ [])
      (λ p. vec_fixed_16 (1 ∷ 2 ∷ []))
      (record { state = init_state manager_locations; world = begun })
    ≡ (
      ok tt,
      record {
        state = valid_state (
            set_for sample deployment services controller_client main_locations tt
              (settings_for sample 42));
        world = visited sample deployment services (visited sample deployment services begun);
      },
    )
unfolding serve handle_end_session HashMap.get ℕ_discrete
started_submits_example =
    started_submits sample deployment services sample-IsCodec sample-IsTransactional controller
      LeadsTo-leader LeadsTo-helper draws draws (running none none idle)
      (running (some 5) none created) (running (some 5) (some 42) begun) 5 (64 ∷ 42 ∷ [])
      controller_creates (stray_spares, stray_spares) controller_starts main_locations tt refl refl
      refl (stray_spares, stray_spares) (stray_spares, stray_spares) created-Exclusive (refl, refl)
      (refl, refl) (λ p. vec_fixed_16 (1 ∷ 2 ∷ []))
      (visited sample deployment services (visited sample deployment services begun))
      (visited sample deployment services (visited sample deployment services begun)) 2 tt refl refl
      refl refl refl

-- The leader has ended session 7, the helper has not, and the network loses every answer.
abbrev half_ended : World sample
half_ended = record (world_of fresh (holding 7 [] [])) { fate = λ n. answer_lost }

leader-IsLost : IsLost sample deployment services 7 leader_party half_ended
unfolding HashMap.get
leader-IsLost = record { missing = refl; spared = λ n. tt }

end_session_stuck_example :
    let s =
      run_all sample network controller
        (retries sample deployment services 7 controller LeadsTo-leader LeadsTo-helper 3)
        (running (some 7) none half_ended) in
    (is_ok (api_end_session sample network controller s).0 ≡ false)
    × (s.mstate ≡ (running (some 7) none half_ended).mstate)
end_session_stuck_example =
    end_session_stuck sample deployment services 7 controller LeadsTo-leader LeadsTo-helper
      leader_party (running (some 7) none half_ended) refl leader-IsLost 3
