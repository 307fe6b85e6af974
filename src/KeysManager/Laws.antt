-- ===== src/KeysManager/Laws.antt =====
-- The constructor against the helpers, and the indices that they take.
use programming_lightning_bu.Base.{ℕ, ◌≡◌, refl, Option, none, some, Outcome, ok, unwrap, ◌>>=◌}
use programming_lightning_bu.Exec.{IoError}
use programming_lightning_bu.Args.{regtest}
use programming_lightning_bu.Payments.{Bytes}
use programming_lightning_bu.KeysManager.{
  Bip32, NodeKeysManager, new, get_master_key, get_hardened_extended_child_private_key,
}

module _ (b : Bip32) where
  -- The manager of a seed whose three keys were derived elsewhere.
  abbrev assembled : Bytes → b.Xpriv → b.Xpriv → b.Xpriv → NodeKeysManager b
  assembled seed node destination channel = record {
    node_secret = b.private_key node;
    node_id = b.from_secret_key (b.private_key node);
    destination_xpub = b.from_priv destination;
    channel_master_key = channel;
    channel_child_index = 0;
    seed = seed;
  }

  unwrap_ok :
      {A : Type 0} {a : A} (o : Option A)
      → ◌≡◌ {A = Outcome IoError A} (unwrap o) (ok a)
      → o ≡ some a
  unwrap_ok none e = absurd (cc)
  unwrap_ok (some x) e = cc

  child-cases :
      (master key : b.Xpriv) (idx : ℕ)
      → get_hardened_extended_child_private_key b master idx ≡ ok key
      → (index : b.ChildNumber) × (b.from_hardened_idx idx ≡ some index)
        × (b.derive_priv master index ≡ some key)
  unfolding get_hardened_extended_child_private_key
  child-cases master key idx e = go (b.from_hardened_idx idx) refl e
    where
      derived : Option b.ChildNumber → Outcome IoError b.Xpriv
      derived o = unwrap o >>= λ index. unwrap (b.derive_priv master index)

      go :
          (o : Option b.ChildNumber)
          → b.from_hardened_idx idx ≡ o
          → derived o ≡ ok key
          → (index : b.ChildNumber) × (b.from_hardened_idx idx ≡ some index)
            × (b.derive_priv master index ≡ some key)
      go none same e = absurd (cc)
      go (some index) same e = (index, same, unwrap_ok (b.derive_priv master index) e)

  -- Whenever the helpers derive the master key of a seed and its hardened children 0, 2 and 3, the
  -- constructor returns the manager of those: the node's key is child 0, the key of destinations
  -- child 2 and the master key of channels child 3.
  new-helpers :
      (seed : Bytes) (master node destination channel : b.Xpriv)
      → get_master_key b seed ≡ ok master
      → get_hardened_extended_child_private_key b master 0 ≡ ok node
      → get_hardened_extended_child_private_key b master 2 ≡ ok destination
      → get_hardened_extended_child_private_key b master 3 ≡ ok channel
      → new b seed ≡ ok (assembled seed node destination channel)
  unfolding new get_master_key
  new-helpers seed master node destination channel m n d c =
      let (i, at_i, node_is) = child-cases master node 0 n in
      let (j, at_j, destination_is) = child-cases master destination 2 d in
      let (k, at_k, channel_is) = child-cases master channel 3 c in
      rw
        (
          unwrap_ok (b.new_master regtest seed) m,
          at_i,
          node_is,
          at_j,
          destination_is,
          at_k,
          channel_is,
        )
        refl
