-- ===== src/Manager/Provisioner/Create.antt =====
-- What `handle_create_session` does when no other request runs between its steps.
use dpsa4fl.Base.{
  is_ok, false, ℕ, ◌≡◌, refl, ◌⊎◌, inl, inr, arith, List, [], Option, none, some, ok, Option-cases,
}
use dpsa4fl.Base.HashMap
use dpsa4fl.External.{Janus}
use dpsa4fl.Manager.Messages.{
  random_u8, Ambient, random_u16, TrainingSessionId, CreateTrainingSessionRequest,
}
use dpsa4fl.Manager.Keyring.{HpkeConfigRegistry, stored, generate, get_random_keypair}
use dpsa4fl.Manager.Provisioner.State.{TrainingSession, TaskProvisioner, session_of, insert_session}
use dpsa4fl.Manager.Provisioner.Handlers.{choose_id, build_session, handle_create_session}

module _ (J : Janus) where
  open J use {
    hpke_config_id, AuthenticationToken, HpkeKeypair, decode_base64, new_bearer_token_from_bytes,
    new_secret_bytes,
  }

  -- All that a request must decode to, and the key pair that the keyring gives.
  pub record Decoded (a : Ambient J) (q : CreateTrainingSessionRequest J) (s : TaskProvisioner J)
      : Type 0 where
    pub collector_bytes : List ℕ
    pub collector_token : AuthenticationToken
    pub leader_token : AuthenticationToken
    pub key_bytes : List ℕ
    pub keypair : HpkeKeypair
    pub keyring : HpkeConfigRegistry J
    pub collector_decoded : decode_base64 q.collector_auth_token_encoded ≡ some collector_bytes
    pub collector_made : new_bearer_token_from_bytes collector_bytes ≡ some collector_token
    pub leader_made : new_bearer_token_from_bytes q.leader_auth_token_encoded ≡ some leader_token
    pub key_decoded : decode_base64 q.verify_key_encoded ≡ some key_bytes
    pub key_drawn : get_random_keypair J a s.keyring ≡ (ok keypair, keyring)

  -- The session that a decoded request makes.
  abbrev pub made_session :
      (a : Ambient J) (q : CreateTrainingSessionRequest J) (s : TaskProvisioner J)
      → Decoded a q s
      → TrainingSession J
  made_session a q s p = record {
    role = q.role;
    collector_hpke_config = q.collector_hpke_config;
    verify_key = new_secret_bytes p.key_bytes;
    collector_auth_token = p.collector_token;
    leader_auth_token = p.leader_token;
    hpke_config_and_key = p.keypair;
    vdaf_parameter = q.vdaf_parameter;
    tasks = [];
  }

  -- A keyring call panics without a change, or gives a key pair.
  get_random_keypair_ends :
      (a : Ambient J) (r : HpkeConfigRegistry J)
      → ((k : HpkeKeypair) × (r' : HpkeConfigRegistry J) × (get_random_keypair J a r ≡ (ok k, r')))
        ⊎ (((get_random_keypair J a r).1 ≡ r) × (is_ok (get_random_keypair J a r).0 ≡ false))
  unfolding get_random_keypair
  get_random_keypair_ends a r = elim (Option-cases (stored J (hpke_config_id (random_u8 J a)) r)) [
    | inr (k, e) ↦ inl (k, r, ground arith)
    | inl e ↦ elim (Option-cases (generate J a.seed (hpke_config_id (random_u8 J a)))) [
      | inl fails ↦ inr (ground arith)
      | inr (k, made) ↦ inl (
        k,
        record r {
          keypairs =
              HashMap.insert J.hpke_config_id_discrete (hpke_config_id (random_u8 J a)) k
                r.keypairs;
        },
        ground arith,
      )
    ]
  ]

  abbrev pub Builds : Ambient J → CreateTrainingSessionRequest J → TaskProvisioner J → Type 0
  Builds a q s =
      ((p : Decoded a q s) × (build_session J a q s
          ≡ (ok (made_session a q s p), record s { keyring = p.keyring })))
      ⊎ (((build_session J a q s).1 ≡ s) × (is_ok (build_session J a q s).0 ≡ false))

  pub build_session-Builds :
      (a : Ambient J) (q : CreateTrainingSessionRequest J) (s : TaskProvisioner J) → Builds a q s
  unfolding build_session
  build_session-Builds a q s = elim (Option-cases (decode_base64 q.collector_auth_token_encoded)) [
    | inl e ↦ inr (ground arith)
    | inr (cb, d) ↦ elim (Option-cases (new_bearer_token_from_bytes cb)) [
      | inl e ↦ inr (ground arith)
      | inr (ct, m) ↦
          elim (Option-cases (new_bearer_token_from_bytes q.leader_auth_token_encoded)) [
            | inl e ↦ inr (ground arith)
            | inr (lt, l) ↦ elim (Option-cases (decode_base64 q.verify_key_encoded)) [
              | inl e ↦ inr (ground arith)
              | inr (kb, k) ↦ elim (get_random_keypair_ends a s.keyring) [
                | inr (same, failed) ↦ inr (ground arith)
                | inl (kp, ring, drawn) ↦ inl (
                  record {
                    collector_bytes = cb;
                    collector_token = ct;
                    leader_token = lt;
                    key_bytes = kb;
                    keypair = kp;
                    keyring = ring;
                    collector_decoded = d;
                    collector_made = m;
                    leader_made = l;
                    key_decoded = k;
                    key_drawn = drawn;
                  },
                  ground arith,
                )
              ]
            ]
          ]
    ]
  ]

  -- The id that a request is given: the one it asks for, which must be free, or the drawn one.
  abbrev pub Chosen : Ambient J → Option TrainingSessionId → TaskProvisioner J → ℕ → Type 0
  Chosen a none s sid = sid ≡ random_u16 J a
  Chosen a (some wanted) s sid = (sid ≡ wanted) × (session_of J wanted s ≡ none)

  abbrev pub Chooses : Ambient J → Option TrainingSessionId → TaskProvisioner J → Type 0
  Chooses a wanted s =
      ((sid : ℕ) × (choose_id J a wanted s ≡ (ok sid, s)) × Chosen a wanted s sid)
      ⊎ (((choose_id J a wanted s).1 ≡ s) × (is_ok (choose_id J a wanted s).0 ≡ false))

  pub choose_id-Chooses :
      (a : Ambient J) (wanted : Option TrainingSessionId) (s : TaskProvisioner J)
      → Chooses a wanted s
  unfolding choose_id
  choose_id-Chooses a none s = inl (random_u16 J a, refl, refl)
  choose_id-Chooses a (some wanted) s = elim (Option-cases (session_of J wanted s)) [
    | inl free ↦ inl (wanted, ground arith, (refl, free))
    | inr (old, taken) ↦ inr (ground arith)
  ]

  abbrev pub Creates : Ambient J → CreateTrainingSessionRequest J → TaskProvisioner J → Type 0
  Creates a q s =
      ((p : Decoded a q s) × (sid : ℕ) × Chosen a q.training_session_id s sid
        × (handle_create_session J a q s ≡ (
          ok sid,
          insert_session J sid (made_session a q s p) (record s { keyring = p.keyring }),
        )))
      ⊎ (((handle_create_session J a q s).1 ≡ s)
          × (is_ok (handle_create_session J a q s).0 ≡ false))

  -- `handle_create_session`, run with no other request between its steps, either inserts the
  -- session that the request decodes to, without tasks, under the id asked for, which was free, or
  -- else under the drawn one, and answers with that id; or it fails and changes nothing.
  pub handle_create_session-Creates :
      (a : Ambient J) (q : CreateTrainingSessionRequest J) (s : TaskProvisioner J) → Creates a q s
  unfolding handle_create_session
  handle_create_session-Creates a q s = elim (choose_id-Chooses a q.training_session_id s) [
    | inr refused ↦ inr (ground arith)
    | inl (sid, chosen, fits) ↦ elim (build_session-Builds a q s) [
      | inr failed ↦ inr (ground arith)
      | inl (p, built) ↦ inl (p, sid, fits, ground arith)
    ]
  ]

  -- A request that decodes is built.
  pub build_session_decoded :
      (a : Ambient J) (q : CreateTrainingSessionRequest J) (s : TaskProvisioner J)
      → (p : Decoded a q s)
      → build_session J a q s ≡ (ok (made_session a q s p), record s { keyring = p.keyring })
  unfolding build_session
  build_session_decoded a q s p = ground arith
