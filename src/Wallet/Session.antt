-- ===== src/Wallet/Session.antt =====
-- The wallet of src/onchain_wallet.rs over BDK: loading or creating it, its scans, and the addresses
-- that it hands out. What the mutex protects is passed on from call to call.
use programming_lightning_bu.Base.{
  Bool, true, Option, none, some, List, [], ◌∷◌, Outcome, ok, err, panic, unwrap, ok_or,
  if◌then◌else◌,
}
use programming_lightning_bu.Exec.{IoError, other, Exec, pure, lift, ◌>>=◌, ◌>>◌}
use programming_lightning_bu.Args.{Network}
use programming_lightning_bu.Payments.{Bytes}
use programming_lightning_bu.Wallet.Bdk.{Bdk, external, internal}

module _ (b : Bdk) where
  open b use {
    Wallet, Database, Request, Update, Psbt, Balance, new_master, bip84, load_wallet, create_wallet,
    start_full_scan, start_sync_with_revealed_spks, apply_update, persist, reveal_next_address,
    balance, sign, extract_tx, script_pubkey,
  }

  -- The file of the wallet, whether each coming `Connection::open` succeeds, and what the Esplora
  -- server will answer to each coming request.
  pub record Outside : Type 0 where
    pub database : Database
    pub connections : List Bool
    pub answers : List (Request → Option Update)

  pub record OnChainWallet : Type 0 where
    pub inner : Wallet
    pub outside : Outside

  abbrev next_connection : List Bool → Bool
  next_connection [] = true
  next_connection (c ∷ cs) = c

  abbrev rest : {A : Type 0} → List A → List A
  rest [] = []
  rest (x ∷ xs) = xs

  abbrev pub answer : List (Request → Option Update) → Request → Option Update
  answer [] request = none
  answer (a ∷ as') request = a request

  -- `Connection::open(path_to_db).unwrap()`
  unfoldable pub connect : Exec Outside (Unit {0})
  connect o = (
    if next_connection o.connections then ok tt else panic,
    record o { connections = rest o.connections },
  )

  unfoldable pub ask_client : Request → Exec Outside Update
  ask_client request o =
      (ok_or (answer o.answers request) other, record o { answers = rest o.answers })

  abbrev pub on_outside : {A : Type 0} → Exec Outside A → Exec OnChainWallet A
  on_outside m this = let (r, o) = m this.outside in (r, record this { outside = o })

  -- `wallet.apply_update(update)?`
  unfoldable pub apply : Update → Exec OnChainWallet (Unit {0})
  apply update this = elim (apply_update update this.inner) [
    | some wallet ↦ (ok tt, record this { inner = wallet })
    | none ↦ (err other, this)
  ]

  -- `wallet.persist(&mut db)?`
  unfoldable pub save : Exec OnChainWallet (Unit {0})
  save this =
      let (saved, database) = persist this.inner this.outside.database in
      let o = record this.outside { database = database } in
      elim saved [
        | some inner ↦ (ok tt, record { inner = inner; outside = o })
        | none ↦ (err other, record this { outside = o })
      ]

  -- A scan of either kind.
  unfoldable pub update_wallet : (Wallet → Request) → Exec OnChainWallet (Unit {0})
  unfolding connect ask_client apply save ◌>>=◌
  update_wallet start this =
      (do
        on_outside connect
        update ← on_outside (ask_client (start this.inner))
        apply update
        save)
        this

  unfoldable pub full_scan : Exec OnChainWallet (Unit {0})
  unfolding update_wallet
  full_scan = update_wallet start_full_scan

  unfoldable pub sync_wallet : Exec OnChainWallet (Unit {0})
  unfolding update_wallet
  sync_wallet = update_wallet start_sync_with_revealed_spks

  abbrev descriptor : Bytes → Bytes
  descriptor xprv = bip84 xprv external

  abbrev change_descriptor : Bytes → Bytes
  change_descriptor xprv = bip84 xprv internal

  -- The wallet of the descriptors in the file, made if there is none.
  unfoldable pub load_or_create : Network → Bytes → Exec Outside Wallet
  load_or_create network xprv o =
      let d = descriptor xprv in
      let c = change_descriptor xprv in
      elim (load_wallet d c network o.database) [
        | none ↦ (panic, o)
        | some (some wallet) ↦ (ok wallet, o)
        | some none ↦
            let (created, database) = create_wallet d c network o.database in
            (unwrap created, record o { database = database })
      ]

  -- The result of the first scan is not looked at, but it may panic.
  abbrev pub scanned :
      Outcome IoError (Unit {0}) × OnChainWallet → Outcome IoError OnChainWallet × Outside
  scanned (ok x, this) = (ok this, this.outside)
  scanned (err e, this) = (ok this, this.outside)
  scanned (panic, this) = (panic, this.outside)

  abbrev pub opened : Outcome IoError Wallet × Outside → Outcome IoError OnChainWallet × Outside
  opened (ok wallet, o) = scanned (full_scan (record { inner = wallet; outside = o }))
  opened (err e, o) = (err e, o)
  opened (panic, o) = (panic, o)

  -- The wallet, with what is outside it; after a panic only that is left.
  unfoldable pub new_from_seed : Bytes → Network → Outside → Outcome IoError OnChainWallet × Outside
  unfolding connect load_or_create full_scan ◌>>=◌
  new_from_seed keys_seed network o = opened (
      (do xprv ← lift (unwrap (new_master network keys_seed)); connect; load_or_create network xprv)
        o)

  unfoldable pub reveal : Exec OnChainWallet Bytes
  reveal this =
      let (address, inner) = reveal_next_address external this.inner in
      (ok address, record this { inner = inner })

  unfoldable pub get_address : Exec OnChainWallet Bytes
  unfolding reveal
  get_address = reveal

  unfoldable pub get_balance : Exec OnChainWallet Balance
  get_balance this = (ok (balance this.inner), this)

  unfoldable pub get_change_script : Exec OnChainWallet Bytes
  unfolding reveal ◌>>=◌
  get_change_script = do address ← reveal; pure (script_pubkey address)

  unfoldable pub get_change_destination_script : Exec OnChainWallet Bytes
  unfolding reveal ◌>>=◌
  get_change_destination_script = do address ← reveal; pure (script_pubkey address)

  unfoldable pub sign_psbt : Psbt → Exec OnChainWallet Bytes
  unfolding ◌>>=◌
  sign_psbt tx this =
      (do signed ← lift (unwrap (sign true this.inner tx)); lift (unwrap (extract_tx signed))) this
