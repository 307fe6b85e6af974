-- ===== src/KeysManager.antt =====
-- src/keys_manager.rs: the keys that a node derives from its seed by BIP 32, in one constructor and in
-- two helpers. The derivation is the library's.
pub mod Laws
use programming_lightning_bu.Base.{ℕ, Option, Outcome, ok, unwrap, ◌>>=◌}
use programming_lightning_bu.Exec.{IoError}
use programming_lightning_bu.Args.{Network, regtest}
use programming_lightning_bu.Payments.{Bytes}

-- What is taken of the crate `bitcoin`.
pub record Bip32 : Type 1 where
  pub Xpriv : Type 0
  pub Xpub : Type 0
  pub SecretKey : Type 0
  pub PublicKey : Type 0
  pub ChildNumber : Type 0
  pub new_master : Network → Bytes → Option Xpriv
  pub from_hardened_idx : ℕ → Option ChildNumber
  pub derive_priv : Xpriv → ChildNumber → Option Xpriv
  pub private_key : Xpriv → SecretKey
  pub from_priv : Xpriv → Xpub
  pub from_secret_key : SecretKey → PublicKey

module _ (b : Bip32) where
  open b use {
    Xpriv, Xpub, SecretKey, PublicKey, ChildNumber, new_master, from_hardened_idx, derive_priv,
    private_key, from_priv, from_secret_key,
  }

  pub record NodeKeysManager : Type 0 where
    pub node_secret : SecretKey
    pub node_id : PublicKey
    pub destination_xpub : Xpub
    pub channel_master_key : Xpriv
    pub channel_child_index : ℕ
    pub seed : Bytes

  unfoldable pub new : Bytes → Outcome IoError NodeKeysManager
  new seed = do
    master_key ← unwrap (new_master regtest seed)
    node_index ← unwrap (from_hardened_idx 0)
    node_key ← unwrap (derive_priv master_key node_index)
    let node_secret = private_key node_key
    destination_index ← unwrap (from_hardened_idx 2)
    destination_key ← unwrap (derive_priv master_key destination_index)
    let destination_xpub = from_priv destination_key
    let node_id = from_secret_key node_secret
    channel_index ← unwrap (from_hardened_idx 3)
    channel_master_key ← unwrap (derive_priv master_key channel_index)
    ok (record {
      node_secret = node_secret;
      node_id = node_id;
      destination_xpub = destination_xpub;
      channel_master_key = channel_master_key;
      channel_child_index = 0;
      seed = seed;
    })

  unfoldable pub get_master_key : Bytes → Outcome IoError Xpriv
  get_master_key seed = unwrap (new_master regtest seed)

  unfoldable pub get_hardened_extended_child_private_key : Xpriv → ℕ → Outcome IoError Xpriv
  get_hardened_extended_child_private_key master_key idx =
      unwrap (from_hardened_idx idx) >>= λ index. unwrap (derive_priv master_key index)
