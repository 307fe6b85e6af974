-- ===== src/Wallet/Bdk.antt =====
-- What src/onchain_wallet.rs calls of the crates bitcoin, bdk_wallet and bdk_esplora, and what their
-- documentation says of it. A result that is `none` is an `Err` of the crate.
use programming_lightning_bu.Base.{ℕ, suc, ◌≤◌, ◌≡◌, Bool, Option, none, some}
use programming_lightning_bu.Args.{Network}
use programming_lightning_bu.Payments.{Bytes}

pub data KeychainKind : Type 0 where
  external internal : KeychainKind

pub record Bdk : Type 1 where
  pub Wallet : Type 0
  -- The file of SQLite.
  pub Database : Type 0
  -- What an Esplora server is asked, and what it answers.
  pub Request : Type 0
  pub Update : Type 0
  pub Psbt : Type 0
  pub Balance : Type 0
  pub new_master : Network → Bytes → Option Bytes
  pub bip84 : Bytes → KeychainKind → Bytes
  pub load_wallet : Bytes → Bytes → Network → Database → Option (Option Wallet)
  pub create_wallet : Bytes → Bytes → Network → Database → Option Wallet × Database
  pub start_full_scan : Wallet → Request
  pub start_sync_with_revealed_spks : Wallet → Request
  pub apply_update : Update → Wallet → Option Wallet
  -- The changes that were not saved yet go into the file.
  pub persist : Wallet → Database → Option Wallet × Database
  pub reveal_next_address : KeychainKind → Wallet → Bytes × Wallet
  pub balance : Wallet → Balance
  -- With or without `trust_witness_utxo`.
  pub sign : Bool → Wallet → Psbt → Option Psbt
  pub extract_tx : Psbt → Option Bytes
  pub script_pubkey : Bytes → Bytes

-- The external addresses of the one pair of descriptors in use are derived by a counter, of which
-- the wallet and the file hold the next value.
pub record IsLawful (b : Bdk) : Type 0 where
  pub next : b.Wallet → ℕ
  pub saved : b.Database → ℕ
  pub address_at : ℕ → Bytes
  pub address_at_injective : (i j : ℕ) → address_at i ≡ address_at j → i ≡ j
  pub script_pubkey_injective :
      (i j : ℕ) → b.script_pubkey (address_at i) ≡ b.script_pubkey (address_at j) → i ≡ j
  pub revealed : (w : b.Wallet) → (b.reveal_next_address external w).0 ≡ address_at (next w)
  pub next-reveal : (w : b.Wallet) → next (b.reveal_next_address external w).1 ≡ suc (next w)
  -- An update may reveal addresses and never takes one back.
  pub next-apply_update :
      (u : b.Update) (w w' : b.Wallet) → b.apply_update u w ≡ some w' → next w ≤ next w'
  pub next-persist :
      (w w' : b.Wallet) (db : b.Database) → (b.persist w db).0 ≡ some w' → next w' ≡ next w
  pub saved-persist :
      (w w' : b.Wallet) (db : b.Database)
      → (b.persist w db).0 ≡ some w'
      → saved (b.persist w db).1 ≡ next w
  -- The file is written in one transaction.
  pub persist_fails :
      (w : b.Wallet) (db : b.Database) → (b.persist w db).0 ≡ none → (b.persist w db).1 ≡ db
  pub next-load :
      (d c : Bytes) (n : Network) (db : b.Database) (w : b.Wallet)
      → b.load_wallet d c n db ≡ some (some w)
      → next w ≡ saved db
  pub saved-create :
      (d c : Bytes) (n : Network) (db : b.Database) (w : b.Wallet)
      → (b.create_wallet d c n db).0 ≡ some w
      → next w ≡ saved (b.create_wallet d c n db).1
  -- What was created or saved for a pair of descriptors and a network is found for them again.
  pub load-create :
      (d c : Bytes) (n : Network) (db : b.Database) (w : b.Wallet)
      → (b.create_wallet d c n db).0 ≡ some w
      → b.load_wallet d c n (b.create_wallet d c n db).1 ≡ some (some w)
  pub load-persist :
      (d c : Bytes) (n : Network) (w w' v : b.Wallet) (db : b.Database)
      → b.load_wallet d c n db ≡ some (some v)
      → (b.persist w db).0 ≡ some w'
      → (v' : b.Wallet) × (b.load_wallet d c n (b.persist w db).1 ≡ some (some v'))
