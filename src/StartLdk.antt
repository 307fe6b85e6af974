-- ===== src/StartLdk.antt =====
-- Parts of `start_ldk` of src/main.rs, in its order: the check of the chain, the seed of the keys,
-- the sweeper, the tasks that connect to peers and announce the node, and the end. The objects of
-- LDK that it builds in between are not modelled.
pub mod Chain
pub mod ChainLaws
pub mod Boot
pub mod BootFiles
pub mod BootLaws
pub mod Prepare
pub mod RestoreLaws
pub mod Running
pub mod RecordsLaws
pub mod RunningLaws
pub mod Keys
pub mod KeysLaws
pub mod Tasks
pub mod TasksLaws
pub mod Shutdown
pub mod ShutdownLaws
use programming_lightning_bu.Base.{
  ◌≡◌, Str, str, Bool, true, false, Option, none, some, Outcome, ok, err, panic, ◌==◌, list_eq,
  nat_eq, unwrap,
}
use programming_lightning_bu.Exec.{IoError, not_found}
use programming_lightning_bu.Args.{Network, bitcoin, testnet, signet, regtest}
use programming_lightning_bu.Payments.{Bytes}

abbrev pub chain_name : Network → Str
chain_name bitcoin = str "main"
chain_name regtest = str "regtest"
chain_name signet = str "signet"
chain_name testnet = str "test"

-- Whether the node goes on after it asked bitcoind for its chain.
unfoldable pub is_expected_chain : Network → Str → Bool
is_expected_chain network bitcoind_chain = bitcoind_chain == chain_name network

-- Where the sweeper comes from: a new one, or one that LDK reads from the bytes.
pub data Sweeper (S : Type 0) : Type 0 where
  new : Sweeper S
  restored : S → Sweeper S

-- From the result of reading its key.
unfoldable pub output_sweeper :
    {S : Type 0} → (Bytes → Option S) → Outcome IoError Bytes → Outcome IoError (Sweeper S)
output_sweeper deserialize (err not_found) = ok new
output_sweeper deserialize (err e) = panic
output_sweeper deserialize (ok bytes) = elim (deserialize bytes) [
  | some sweeper ↦ ok (restored sweeper)
  | none ↦ panic
]
output_sweeper deserialize panic = panic
