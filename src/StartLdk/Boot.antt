-- ===== src/StartLdk/Boot.antt =====
-- `start_ldk` of src/main.rs up to the seed of the keys. `parse_startup_args`, which `Args` models,
-- has run; whether the client of bitcoind connects and what bitcoind calls its chain are parameters.
use programming_lightning_bu.Base.{
  Str, str, Bool, Option, none, some, ◌++◌, [], Outcome, if◌then◌else◌,
}
use programming_lightning_bu.Exec.{IoError, pure, lift, ◌>>=◌, ◌>>◌}
use programming_lightning_bu.FilePath.{FilePath, push}
use programming_lightning_bu.Fs.{Io, create_dir_all}
use programming_lightning_bu.Logger
use programming_lightning_bu.Args.{LdkUserInfo}
use programming_lightning_bu.Payments.{Bytes}
use programming_lightning_bu.StartLdk.{is_expected_chain}
use programming_lightning_bu.StartLdk.Keys.{load_keys_seed}
use programming_lightning_bu.StartLdk.Chain.{unwrap_io}

-- Where `start_ldk` returns before it has built anything, and what it goes on with.
pub data Boot : Type 0 where
  no_args no_client wrong_chain no_seed : Boot
  ready : FilePath → LdkUserInfo → Bytes → Boot

pub record Surroundings : Type 0 where
  pub args : Option LdkUserInfo
  pub client_connects : Bool
  pub bitcoind_chain : Outcome IoError Str
  pub random : Bytes

-- `format!("{}/.ldk", ldk_storage_dir_path)`
abbrev pub ldk_data_dir : LdkUserInfo → FilePath
ldk_data_dir info = push [] (info.ldk_storage_dir_path ++ str "/.ldk")

abbrev pub with_seed : FilePath → LdkUserInfo → Option Bytes → Boot
with_seed dir info (some seed) = ready dir info seed
with_seed dir info none = no_seed

module _ (s : Surroundings) where
  -- From the client of bitcoind on.
  unfoldable pub connected : LdkUserInfo → Io Boot
  unfolding is_expected_chain load_keys_seed ◌>>=◌
  connected info =
      let dir = ldk_data_dir info in
      if s.client_connects
      then (do
        chain ← lift s.bitcoind_chain
        if is_expected_chain info.network chain
            then (do seed ← load_keys_seed dir s.random; pure (with_seed dir info seed))
            else pure wrong_chain)
      else pure no_client

  unfoldable pub boot_with : LdkUserInfo → Io Boot
  unfolding create_dir_all Logger.new connected ◌>>=◌
  boot_with info =
      let dir = ldk_data_dir info in
      unwrap_io (create_dir_all dir) >> (Logger.new dir >> connected info)

  unfoldable pub boot : Io Boot
  unfolding boot_with
  boot = elim s.args [ none ↦ pure no_args | some info ↦ boot_with info ]
