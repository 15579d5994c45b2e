-- ===== src/Manager/Keyring.antt =====
-- `HpkeConfigRegistry` of src/janus_manager/interface/types.rs: key pairs made on first use.
pub mod Laws
use dpsa4fl.Base.{
  Option, none, some, [], Action, ok, pure, modify, keypair_unwrap, unwrap, ◌>>=◌, ◌>>◌,
}
use dpsa4fl.Base.HashMap.{HashMap}
use dpsa4fl.Base.HashMap
use dpsa4fl.External.{Janus}
use dpsa4fl.Manager.Messages.{Ambient, random_u8}

module _ (J : Janus) where
  open J use {
    HpkeConfigId, hpke_config_id, hpke_config_id_discrete, HpkeKeypair, Seed,
    generate_hpke_config_and_private_key, x25519_hkdf_sha256, hkdf_sha256, aes_128_gcm,
  }

  pub record HpkeConfigRegistry : Type 0 where
    pub keypairs : HashMap HpkeConfigId HpkeKeypair

  -- `HpkeConfigRegistry::new`
  unfoldable pub empty_registry : HpkeConfigRegistry
  empty_registry = record { keypairs = [] }

  abbrev pub stored : HpkeConfigId → HpkeConfigRegistry → Option HpkeKeypair
  stored id r = HashMap.get hpke_config_id_discrete id r.keypairs

  -- The closure of `or_insert_with`, with its `unwrap`.
  abbrev pub generate : Seed → HpkeConfigId → Option HpkeKeypair
  generate seed id =
      generate_hpke_config_and_private_key seed id x25519_hkdf_sha256 hkdf_sha256 aes_128_gcm

  unfoldable pub or_insert : Seed → HpkeConfigId → Action HpkeConfigRegistry HpkeKeypair
  or_insert seed id = do
    k ← unwrap (generate seed id) keypair_unwrap
    modify λ r. record r { keypairs = HashMap.insert hpke_config_id_discrete id k r.keypairs }
    pure k

  -- `fetch_keypair`: the stored key pair, or a new one, which is stored.
  unfoldable pub fetch_keypair : Seed → HpkeConfigId → Action HpkeConfigRegistry HpkeKeypair
  unfolding or_insert
  fetch_keypair seed id r = elim (stored id r) [ some k ↦ (ok k, r) | none ↦ or_insert seed id r ]

  unfoldable pub get_random_keypair : Ambient J → Action HpkeConfigRegistry HpkeKeypair
  unfolding fetch_keypair
  get_random_keypair a = fetch_keypair a.seed (hpke_config_id (random_u8 J a))
