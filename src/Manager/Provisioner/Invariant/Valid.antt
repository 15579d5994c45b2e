-- ===== src/Manager/Provisioner/Invariant/Valid.antt =====
-- Sound sessions and valid states, and what keeps them.
use dpsa4fl.Manager.Provisioner.Handlers.{handle_end_session}
use dpsa4fl.Base.{
  subst, inr, inl, Option-cases, arith, ◌++◌, ℕ, ℕ_discrete, ◌≡◌, List, [], ◌∷◌, some,
}
use dpsa4fl.Base.HashMap
use dpsa4fl.External.{Janus}
use dpsa4fl.Manager.Keyring.{HpkeConfigRegistry, stored}
use dpsa4fl.Manager.Provisioner.State.{
  remove_session, insert_session, TaskProvisioner, TrainingSession, session_of,
}
use dpsa4fl.Manager.Provisioner.Provisioned.{IsStored}
use dpsa4fl.Manager.Provisioner.Query.{HasTask}
use dpsa4fl.Manager.Provisioner.Machine.{Machine, Pending, chosen, built}

module _ (J : Janus) where
  open J use {TaskId, Datastore}

  -- Every task of a session is in the datastore.
  abbrev pub IsProvisioned : Datastore → TrainingSession J → Type 0
  IsProvisioned d v = (t : TaskId) → HasTask J t v → IsStored J t d

  -- The key pair of a session is one that the keyring keeps.
  abbrev pub HasKey : HpkeConfigRegistry J → TrainingSession J → Type 0
  HasKey r v = (id : J.HpkeConfigId) × (stored J id r ≡ some v.hpke_config_and_key)

  abbrev pub IsSound : Datastore → HpkeConfigRegistry J → TrainingSession J → Type 0
  IsSound d r v = IsProvisioned d v × HasKey r v

  -- A creation whose session is not built yet is no concern.
  abbrev pub PendingIsSound : Datastore → HpkeConfigRegistry J → Pending J → Type 0
  PendingIsSound d r (chosen a q sid) = Unit
  PendingIsSound d r (built sid v) = IsSound d r v

  abbrev pub AllPending : Datastore → HpkeConfigRegistry J → List (Pending J) → Type 0
  AllPending d r [] = Unit
  AllPending d r (p ∷ ps) = PendingIsSound d r p × AllPending d r ps

  -- No id is stored twice; every session, stored or about to be inserted, has its tasks in the
  -- datastore and its key pair in the keyring.
  pub record IsValid (m : Machine J) : Type 0 where
    pub nodup : HashMap.NodupKeys ℕ_discrete m.provisioner.training_sessions
    pub sound :
        (sid : ℕ) (v : TrainingSession J)
        → session_of J sid m.provisioner ≡ some v
        → IsSound m.provisioner.datastore m.provisioner.keyring v
    pub waiting : AllPending m.provisioner.datastore m.provisioner.keyring m.pending

  -- What a change of the datastore and the keyring must keep.
  abbrev pub Grows : Datastore → HpkeConfigRegistry J → Datastore → HpkeConfigRegistry J → Type 0
  Grows d r d' r' =
      ((t : TaskId) → IsStored J t d → IsStored J t d')
      × ((id : J.HpkeConfigId) (k : J.HpkeKeypair)
          → stored J id r ≡ some k
          → stored J id r' ≡ some k)

  module _ (d d' : Datastore) (r r' : HpkeConfigRegistry J) (g : Grows d r d' r') where
    pub IsSound-Grows : (v : TrainingSession J) → IsSound d r v → IsSound d' r' v
    IsSound-Grows v (tasks, (id, key)) =
        (λ t h. g.0 t (tasks t h), (id, g.1 id v.hpke_config_and_key key))

    pub PendingIsSound-Grows : (p : Pending J) → PendingIsSound d r p → PendingIsSound d' r' p
    PendingIsSound-Grows (chosen a q sid) h = tt
    PendingIsSound-Grows (built sid v) h = IsSound-Grows v h

    pub AllPending-Grows : (ps : List (Pending J)) → AllPending d r ps → AllPending d' r' ps
    AllPending-Grows [] h = tt
    AllPending-Grows (p ∷ ps) h = (PendingIsSound-Grows p h.0, AllPending-Grows ps h.1)

  module _ (d : Datastore) (r : HpkeConfigRegistry J) (p : Pending J)
      (after : List (Pending J)) where
    pub AllPending-middle :
        (before : List (Pending J))
        → AllPending d r (before ++ (p ∷ after))
        → PendingIsSound d r p × AllPending d r (before ++ after)
    AllPending-middle [] h = h
    AllPending-middle (x ∷ before) h =
        let rest = AllPending-middle before h.1 in (rest.0, (h.0, rest.1))

    pub AllPending-insert :
        (before : List (Pending J))
        → PendingIsSound d r p
        → AllPending d r (before ++ after)
        → AllPending d r (before ++ (p ∷ after))
    AllPending-insert [] h k = (h, k)
    AllPending-insert (x ∷ before) h k = (k.0, AllPending-insert before h k.1)

  abbrev pub Sound : Machine J → Type 0
  Sound m =
      (sid : ℕ) (v : TrainingSession J)
      → session_of J sid m.provisioner ≡ some v
      → IsSound m.provisioner.datastore m.provisioner.keyring v

  -- A session inserted under an id that is sound keeps all sessions sound.
  pub insert_session-IsSound :
      (sid : ℕ) (w : TrainingSession J) (p : TaskProvisioner J) (ps : List (Pending J))
      → Sound (record { provisioner = p; pending = ps })
      → IsSound p.datastore p.keyring w
      → Sound (record { provisioner = insert_session J sid w p; pending = ps })
  insert_session-IsSound sid w p ps h k other v e = elim (ℕ_discrete other sid) [
    | yes same ↦
        let q : w ≡ v =
          ground (arith, HashMap.get-insert ℕ_discrete other sid w p.training_sessions) in
        subst (λ x. IsSound p.datastore p.keyring x) q k
    | no differ ↦
        h other v (ground (arith, HashMap.get-insert ℕ_discrete other sid w p.training_sessions))
  ]

  -- The provisioner after a step that keeps the datastore and the keyring growing.
  pub IsValid-Grows :
      (p p' : TaskProvisioner J) (ps : List (Pending J))
      → p'.training_sessions ≡ p.training_sessions
      → Grows p.datastore p.keyring p'.datastore p'.keyring
      → IsValid (record { provisioner = p; pending = ps })
      → IsValid (record { provisioner = p'; pending = ps })
  IsValid-Grows p p' ps same g h = record {
    nodup = rw same h.nodup;
    sound = λ sid v e.
        IsSound-Grows p.datastore p'.datastore p.keyring p'.keyring g v (h.sound sid v (cc));
    waiting = AllPending-Grows p.datastore p'.datastore p.keyring p'.keyring g ps h.waiting;
  }

  pub insert_session-IsValid :
      (sid : ℕ) (w : TrainingSession J) (p : TaskProvisioner J) (ps : List (Pending J))
      → IsValid (record { provisioner = p; pending = ps })
      → IsSound p.datastore p.keyring w
      → IsValid (record { provisioner = insert_session J sid w p; pending = ps })
  insert_session-IsValid sid w p ps h k = record {
    nodup = HashMap.insert-NodupKeys ℕ_discrete sid w p.training_sessions h.nodup;
    sound = insert_session-IsSound sid w p ps h.sound k;
    waiting = h.waiting;
  }

  pub remove_session-IsValid :
      (sid : ℕ) (p : TaskProvisioner J) (ps : List (Pending J))
      → IsValid (record { provisioner = p; pending = ps })
      → IsValid (record { provisioner = remove_session J sid p; pending = ps })
  remove_session-IsValid sid p ps h = record {
    nodup = HashMap.remove-NodupKeys ℕ_discrete sid p.training_sessions h.nodup;
    sound = λ other v e.
        h.sound other v
          (ground (arith, HashMap.get-remove ℕ_discrete other sid p.training_sessions));
    waiting = h.waiting;
  }

  pub end_session-IsValid :
      (sid : ℕ) (p : TaskProvisioner J) (ps : List (Pending J))
      → IsValid (record { provisioner = p; pending = ps })
      → IsValid (record { provisioner = (handle_end_session J sid p).1; pending = ps })
  unfolding handle_end_session
  end_session-IsValid sid p ps h = elim (Option-cases (session_of J sid p)) [
    | inl missing ↦ rw (missing, handle_end_session) h
    | inr (v, found) ↦ rw (found, handle_end_session) (remove_session-IsValid sid p ps h)
  ]
