-- ===== src/Args.antt =====
-- src/args.rs: the arguments of the program and the credentials of bitcoind's RPC server. The
-- environment is a record; `read_to_string` gives `none` on any failure, and
-- `SocketAddress::from_str` is a parameter. What is printed is left out.
pub mod Credentials
pub mod Startup
pub mod Laws
use programming_lightning_bu.Base.{
  ℕ, zero, suc, ◌+◌, ◌-◌, Str, str, Bool, true, false, Option, none, some, List, [], ◌∷◌, ◌++◌,
  Outcome, ok, err, panic,
}
use programming_lightning_bu.Base.Dict.{Dict, lookup, insert}
use programming_lightning_bu.FilePath.{FilePath, components, push}
use programming_lightning_bu.Text.{split, splitn2, rsplitn2, lines, parse_uint, u16_max}
use programming_lightning_bu.Payments.{Bytes}

pub data Network : Type 0 where
  bitcoin testnet signet regtest : Network

pub record LdkUserInfo : Type 0 where
  pub bitcoind_rpc_username : Str
  pub bitcoind_rpc_password : Str
  pub bitcoind_rpc_port : ℕ
  pub bitcoind_rpc_host : Str
  pub ldk_storage_dir_path : Str
  pub ldk_peer_listening_port : ℕ
  pub ldk_announced_listen_addr : List Bytes
  pub ldk_announced_node_name : Bytes
  pub network : Network

pub record Environment : Type 0 where
  -- `env::args()`, the program's name first.
  pub args : List Str
  pub home_dir : Option Str
  pub var : Str → Option Str
  pub read_to_string : FilePath → Option Str

abbrev pub default_bitcoin_datadir : Str
default_bitcoin_datadir = str ".bitcoin"

abbrev pub rpc_user_key : Str
rpc_user_key = str "RPC_USER"

abbrev pub rpc_password_key : Str
rpc_password_key = str "RPC_PASSWORD"
