-- ===== src/Wallet.antt =====
-- `create_funding_transaction` of src/onchain_wallet.rs. BDK's `finish`, `sign` and `extract_tx` are
-- the parameter `build`, from the output script, the amount, the fee rate and the lock time.
pub mod Bdk
pub mod Session
pub mod Operations
pub mod AddressLaws
pub mod Sessions
pub mod Restarts
pub mod Utxos
pub mod UtxosLaws
use programming_lightning_bu.Base.{ℕ, Option, Outcome, ◌>>=◌, unwrap}
use programming_lightning_bu.Exec.{IoError}
use programming_lightning_bu.BitcoindClient.{ConfirmationTarget, Fees, get_est_sat_per_1000_weight}
use programming_lightning_bu.Payments.{Bytes}

module _ (build : Bytes → ℕ → ℕ → ℕ → Option Bytes) (fees : Fees) where
  unfoldable pub create_funding_transaction :
      Bytes → ℕ → ConfirmationTarget → ℕ → Outcome IoError Bytes
  create_funding_transaction output_script amount target locktime = do
    fee_rate ← get_est_sat_per_1000_weight fees target
    unwrap (build output_script amount fee_rate locktime)
