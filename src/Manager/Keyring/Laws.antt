-- ===== src/Manager/Keyring/Laws.antt =====
-- The key registry as a cache.
use dpsa4fl.Base.{some, none, ok, ◌≡◌, ◌≢◌, ◌⊎◌, inl, inr, arith, Option-cases}
use dpsa4fl.Base.HashMap
use dpsa4fl.External.{Janus}
use dpsa4fl.Manager.Keyring.{
  random_u8, Ambient, get_random_keypair, HpkeConfigRegistry, stored, generate, fetch_keypair,
}

module _ (J : Janus) where
  open J use {HpkeConfigId, hpke_config_id_discrete, HpkeKeypair, Seed}

  -- Fetching a key pair keeps every key pair that was stored, and adds none under another id.
  pub fetch_keypair_others :
      (s : Seed) (id other : HpkeConfigId) (r : HpkeConfigRegistry J)
      → (stored J other r ≢ none) ⊎ (other ≢ id)
      → stored J other (fetch_keypair J s id r).1 ≡ stored J other r
  unfolding fetch_keypair
  fetch_keypair_others s id other r h = elim (Option-cases (generate J s id)) [
    | inl e ↦ ground (arith)
    | inr (k, e) ↦ ground (arith, HashMap.get-insert hpke_config_id_discrete other id k r.keypairs)
  ]

  -- A drawn key pair is in the registry afterwards, and what was there stays.
  pub get_random_keypair_stored :
      (a : Ambient J) (r r' : HpkeConfigRegistry J) (k : HpkeKeypair)
      → get_random_keypair J a r ≡ (ok k, r')
      → stored J (J.hpke_config_id (random_u8 J a)) r' ≡ some k
  unfolding get_random_keypair
  get_random_keypair_stored a r r' k h = ground (
    arith,
    HashMap.get-insert hpke_config_id_discrete (J.hpke_config_id (random_u8 J a))
        (J.hpke_config_id (random_u8 J a)) k r.keypairs,
  )

  pub get_random_keypair_keeps :
      (a : Ambient J) (r r' : HpkeConfigRegistry J) (k x : HpkeKeypair) (other : HpkeConfigId)
      → get_random_keypair J a r ≡ (ok k, r')
      → stored J other r ≡ some x
      → stored J other r' ≡ some x
  unfolding get_random_keypair
  get_random_keypair_keeps a r r' k x other h e = ground (
    arith,
    HashMap.get-insert hpke_config_id_discrete other (J.hpke_config_id (random_u8 J a)) k
        r.keypairs,
  )
