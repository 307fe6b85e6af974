-- ===== src/Wallet/Operations.antt =====
-- Runs of the wallet: the calls that the node makes of it, one after the other.
use programming_lightning_bu.Base.{Option, none, some, List, [], ◌∷◌, ◌++◌, Outcome, ok, err, panic}
use programming_lightning_bu.Exec.{IoError}
use programming_lightning_bu.Payments.{Bytes}
use programming_lightning_bu.Wallet.Bdk.{Bdk}
use programming_lightning_bu.Wallet.Session.{
  OnChainWallet, sync_wallet, get_address, get_change_script, get_change_destination_script,
  sign_psbt,
}

module _ (b : Bdk) where
  pub data Operation : Type 0 where
    address change_script change_destination sync : Operation
    sign : b.Psbt → Operation

  -- The script that a call handed out.
  abbrev handed : Outcome IoError Bytes × OnChainWallet b → Option (List Bytes) × OnChainWallet b
  handed (ok script, this) = (some (script ∷ []), this)
  handed (err e, this) = (some [], this)
  handed (panic, this) = (none, this)

  abbrev pub silent :
      {A : Type 0} → Outcome IoError A × OnChainWallet b → Option (List Bytes) × OnChainWallet b
  silent (ok x, this) = (some [], this)
  silent (err e, this) = (some [], this)
  silent (panic, this) = (none, this)

  abbrev as_script :
      Outcome IoError Bytes × OnChainWallet b → Outcome IoError Bytes × OnChainWallet b
  as_script (ok a, this) = (ok (b.script_pubkey a), this)
  as_script (err e, this) = (err e, this)
  as_script (panic, this) = (panic, this)

  -- `none` is a panic.
  unfoldable pub perform : Operation → OnChainWallet b → Option (List Bytes) × OnChainWallet b
  unfolding get_address get_change_script get_change_destination_script
  perform address this = handed (as_script (get_address b this))
  perform change_script this = handed (get_change_script b this)
  perform change_destination this = handed (get_change_destination_script b this)
  perform sync this = silent (sync_wallet b this)
  perform (sign tx) this = silent (sign_psbt b tx this)

  -- The scripts handed out until the end or a panic.
  unfoldable pub run : List Operation → OnChainWallet b → List Bytes × OnChainWallet b
  unfolding perform
  run [] this = ([], this)
  run (op ∷ ops) this =
      let (r, this') = perform op this in
      elim r [
        | some scripts ↦ let (later, end) = run ops this' in (scripts ++ later, end)
        | none ↦ ([], this')
      ]
