-- ===== src/Manager/Provisioner/Invariant.antt =====
-- The invariant of a provisioner, under requests that interleave.
pub mod Valid
pub use dpsa4fl.Manager.Provisioner.Invariant.Valid.{IsValid}
use dpsa4fl.Manager.Provisioner.Invariant.Valid.{
  IsProvisioned, HasKey, IsSound, PendingIsSound, AllPending, Grows, IsSound-Grows,
  PendingIsSound-Grows, AllPending-Grows, AllPending-middle, AllPending-insert, Sound,
  insert_session-IsSound, IsValid-Grows, insert_session-IsValid, remove_session-IsValid,
  end_session-IsValid,
}
use dpsa4fl.Manager.Keyring.Laws.{get_random_keypair_keeps, get_random_keypair_stored}
use dpsa4fl.Manager.Messages.{random_u8, CreateTrainingSessionRequest, StartRoundRequest, Ambient}
use dpsa4fl.Manager.Provisioner.Create.{made_session, build_session-Builds}
use dpsa4fl.Manager.Provisioner.Start.{Prepared-id, Prepared, handle_start_round-Starts}
use dpsa4fl.External.Laws.{IsDatastore}
use dpsa4fl.Manager.Provisioner.Handlers.{build_session, handle_start_round, handle_end_session}
use dpsa4fl.Base.{
  refl, subst₂, subst, ◌∙◌, sym, contains-push, push, inr, ok, inl, Option-cases, arith, ◌++◌, ℕ,
  ℕ_discrete, ◌≡◌, List, [], ◌∷◌, some,
}
use dpsa4fl.Base.HashMap
use dpsa4fl.External.{Janus}
use dpsa4fl.Manager.Keyring.{HpkeConfigRegistry, stored}
use dpsa4fl.Manager.Provisioner.State.{
  TaskProvisionerConfig, new_provisioner, remove_session, insert_session, TaskProvisioner,
  TrainingSession, session_of,
}
use dpsa4fl.Manager.Provisioner.Provisioned.{
  Posted-IsStored_others, Posted-IsStored, Posted, IsStored, provision_task-Provisions,
}
use dpsa4fl.Manager.Provisioner.Provision.{provision_task}
use dpsa4fl.Manager.Provisioner.Query.{HasTask}
use dpsa4fl.Manager.Provisioner.Machine.{Machine, Step, Reach, Pending, chosen, built}

module _ (J : Janus) where
  open J use {TaskId, Datastore}

  module _ (L : IsDatastore J) where
    -- What a started round leaves sound: its session, with the task in the datastore.
    started_sound :
        (a : Ambient J) (q : StartRoundRequest) (p : TaskProvisioner J) (r : Prepared J a q p)
        → (d : Datastore) → Posted J r.task p.datastore d
        → IsProvisioned J p.datastore r.session
        → IsProvisioned J d (record (r.session) { tasks = push r.session.tasks r.task_id })
    started_sound a q p r d posted old t has = elim (J.task_id_discrete t r.task_id) [
      | yes new ↦
          subst (λ x. IsStored J x d) (Prepared-id J L a q p r ∙ sym new)
            (Posted-IsStored J L r.task p.datastore d posted)
      | no other ↦
          Posted-IsStored_others J L r.task p.datastore d t posted
            (old t (ground (arith, contains-push J.task_id_discrete r.session.tasks r.task_id t)))
    ]

    start_round-IsValid :
        (a : Ambient J) (q : StartRoundRequest) (p : TaskProvisioner J) (ps : List (Pending J))
        → IsValid J (record { provisioner = p; pending = ps })
        → IsValid J (record { provisioner = (handle_start_round J a q p).1; pending = ps })
    start_round-IsValid a q p ps h = elim (handle_start_round-Starts J L.tx a q p) [
      | inr (same, failed) ↦ rw same h
      | inl (r, d, e, posted) ↦
          let old = h.sound q.training_session_id r.session r.found in
          rw e (
            insert_session-IsValid J q.training_session_id
              (record (r.session) { tasks = push r.session.tasks r.task_id })
              (record p { datastore = d }) ps
              (IsValid-Grows J p (record p { datastore = d }) ps refl
                (λ t st. Posted-IsStored_others J L r.task p.datastore d t posted st, λ id k x. x)
                h)
              (started_sound a q p r d posted old.0, old.1))
    ]

    abandon_start-IsValid :
        (task : J.AggregatorTask) (p : TaskProvisioner J) (d : Datastore) (ps : List (Pending J))
        → provision_task J task p.datastore ≡ (ok tt, d)
        → IsValid J (record { provisioner = p; pending = ps })
        → IsValid J (record { provisioner = record p { datastore = d }; pending = ps })
    abandon_start-IsValid task p d ps e h =
        elim (provision_task-Provisions J L.tx task p.datastore) [
          | inr (x, failed) ↦ ground (arith, e, failed)
          | inl (d', done, posted) ↦
              let same : d' ≡ d = cc (done, e) in
              rw (← same) (
                IsValid-Grows J p (record p { datastore = d' }) ps refl
                  (λ t st. Posted-IsStored_others J L task p.datastore d' t posted st, λ id k x. x)
                  h)
        ]

    build-IsValid :
        (a : Ambient J) (q : CreateTrainingSessionRequest J) (p p' : TaskProvisioner J)
        (v : TrainingSession J) (ps : List (Pending J))
        → build_session J a q p ≡ (ok v, p')
        → IsValid J (record { provisioner = p; pending = ps })
        → IsValid J (record { provisioner = p'; pending = ps })
          × IsSound J p'.datastore p'.keyring v
    build-IsValid a q p p' v ps e h = elim (build_session-Builds J a q p) [
      | inr failed ↦ ground arith
      | inl (r, made) ↦
          let valid =
            IsValid-Grows J p (record p { keyring = r.keyring }) ps refl
              (
                λ t st. st,
                λ id k x.
                    get_random_keypair_keeps J a p.keyring r.keyring r.keypair k id r.key_drawn x,
              )
              h in
          let sound : IsSound J p.datastore r.keyring (made_session J a q p r) = (
            λ t has. cc,
            (
              J.hpke_config_id (random_u8 J a),
              get_random_keypair_stored J a p.keyring r.keyring r.keypair r.key_drawn,
            ),
          ) in
          let same_session : made_session J a q p r ≡ v = ground arith in
          let same_state : record p { keyring = r.keyring } ≡ p' = ground arith in
          subst₂
            (λ x y.
              IsValid J (record { provisioner = x; pending = ps })
              × IsSound J x.datastore x.keyring y)
            same_state same_session (valid, sound)
    ]

    -- Over a datastore that finds what was put into it by transactions that commit or roll back, every
    -- step keeps the invariant: a whole request, a start that is cut off, or one step of a creation
    -- that runs between other requests.
    pub Step-IsValid : {m n : Machine J} → Step J m n → IsValid J m → IsValid J n
    Step-IsValid {m} (Step.start_round a q) h = start_round-IsValid a q m.provisioner m.pending h
    Step-IsValid {m} (Step.abandon_start a q p d e) h =
        abandon_start-IsValid p.task m.provisioner d m.pending e h
    Step-IsValid {m} (Step.end_session sid) h = end_session-IsValid J sid m.provisioner m.pending h
    Step-IsValid {m} (Step.choose a q sid e) h = record {
      nodup = h.nodup;
      sound = h.sound;
      waiting = (tt, h.waiting);
    }
    Step-IsValid {m} (Step.build before after a q sid v p e made) h =
        let (valid, sound) = build-IsValid a q m.provisioner p v m.pending made h in
        let rest =
          AllPending-middle J p.datastore p.keyring (chosen a q sid) after before
            (subst (AllPending J p.datastore p.keyring) e valid.waiting) in
        record {
          nodup = valid.nodup;
          sound = valid.sound;
          waiting =
              AllPending-insert J p.datastore p.keyring (built sid v) after before sound rest.1;
        }
    Step-IsValid {m} (Step.insert before after sid v e) h =
        let p = m.provisioner in
        let (sound, rest) =
          AllPending-middle J p.datastore p.keyring (built sid v) after before
            (subst (AllPending J p.datastore p.keyring) e h.waiting) in
        insert_session-IsValid J sid v p (before ++ after)
          (record { nodup = h.nodup; sound = h.sound; waiting = rest }) sound
    Step-IsValid {m} (Step.drop before after x e) h =
        let p = m.provisioner in
        let rest =
          AllPending-middle J p.datastore p.keyring x after before
            (subst (AllPending J p.datastore p.keyring) e h.waiting) in
        record { nodup = h.nodup; sound = h.sound; waiting = rest.1 }

    -- Over a datastore that finds what was put into it by transactions that commit or roll back: from a
    -- new provisioner, after any requests in any interleaving, those included that are cut off while
    -- they wait, no session id is stored twice, every task of every session is in the datastore, and
    -- every session's key pair is in the keyring.
    pub Reach-IsValid :
        (d : Datastore) (c : TaskProvisionerConfig J) {m : Machine J}
        → Reach J (record { provisioner = new_provisioner J d c; pending = [] }) m
        → IsValid J m
    unfolding new_provisioner
    Reach-IsValid d c Reach.here = record {
      nodup = tt;
      sound = λ sid v e. cc (HashMap.get-nil {V = TrainingSession J} ℕ_discrete sid);
      waiting = tt;
    }
    Reach-IsValid d c (Reach.next r st) = Step-IsValid st (Reach-IsValid d c r)
