-- ===== src/Args/Startup.antt =====
-- `get_config_info` and `parse_startup_args` of src/args.rs.
use programming_lightning_bu.Base.{
  ℕ, zero, suc, ◌+◌, ◌-◌, Str, str, Bool, true, false, Option, none, some, List, [], ◌∷◌, ◌++◌, ok,
  err, panic, unwrap, ◌>>=◌, list_eq, nat_eq, option_eq, ◌==◌, ltb, if◌then◌else◌, length, drop,
  replicate,
}
use programming_lightning_bu.Payments.{Bytes}
use programming_lightning_bu.Text.{split, rsplitn2, parse_uint, u16_max}
use programming_lightning_bu.Args.{Network, testnet, signet, regtest, Environment, LdkUserInfo}
use programming_lightning_bu.Args.Credentials.{
  Result, or_else, parse_rpc_auth, get_rpc_auth_from_cookie, get_rpc_auth_from_env_vars,
  get_rpc_auth_from_env_file,
}

-- `skip(n).next()`
abbrev pub nth : ℕ → List Str → Option Str
nth n [] = none
nth zero (a ∷ rest) = some a
nth (suc n) (a ∷ rest) = nth n rest

-- A text copied into `[0; 32]`: a longer one panics.
unfoldable pub padded : Str → Result Bytes
padded s = if ltb 32 (length s) then panic else ok (s ++ replicate (32 - length s) 0)

-- The port, and whether the third argument is one.
unfoldable pub listening_port : Option Str → ℕ × Bool
unfolding parse_uint
listening_port none = (9735, false)
listening_port (some p) = elim (parse_uint u16_max p) [ some n ↦ (n, true) | none ↦ (9735, false) ]

unfoldable pub parse_network : Option Str → Result Network
parse_network none = ok testnet
parse_network (some net) =
    if net == str "testnet"
    then ok testnet
    else if net == str "regtest"
    then ok regtest
    else if net == str "signet"
    then ok signet
    else panic

abbrev pub host_and_port : List Str → Result (Str × Str)
host_and_port (host ∷ port ∷ []) = ok (host, port)
host_and_port _ = err tt

unfoldable pub announced_name : Option Str → Result Bytes
unfolding padded
announced_name none = ok (replicate 32 0)
announced_name (some s) = padded s

-- The index of the argument before the addresses.
abbrev pub name_index : Option Str → ℕ → ℕ
name_index none arg_idx = arg_idx
name_index (some s) arg_idx = arg_idx + 1

abbrev pub first_part : List Str → Str
first_part [] = []
first_part (a ∷ rest) = a

module _ (socket_address : Str → Option Bytes) where
  unfoldable pub get_config_info : Result LdkUserInfo
  unfolding padded
  get_config_info = do
    name ← padded (str "Programming Lightning Workshop")
    addr ← unwrap (socket_address (str "0.0.0.0:9733"))
    ok (record {
      bitcoind_rpc_username = str "polaruser";
      bitcoind_rpc_password = str "polarpass";
      bitcoind_rpc_host = str "lightning.ngrok.app";
      bitcoind_rpc_port = 80;
      ldk_storage_dir_path = str "./";
      ldk_peer_listening_port = 9733;
      ldk_announced_listen_addr = addr ∷ [];
      ldk_announced_node_name = name;
      network = regtest;
    })

  unfoldable pub parse_addresses : List Str → Result (List Bytes)
  parse_addresses [] = ok []
  parse_addresses (s ∷ rest) = do
    sa ← unwrap (socket_address s)
    sas ← parse_addresses rest
    ok (sa ∷ sas)

  module _ (e : Environment) where
    -- The credentials, from the parts that `rsplitn` gives, which are one or two.
    unfoldable pub credentials : List Str → Network → Result (Str × Str)
    unfolding get_rpc_auth_from_env_vars get_rpc_auth_from_env_file get_rpc_auth_from_cookie
        parse_rpc_auth
    credentials (host ∷ []) network = or_else (get_rpc_auth_from_env_vars e) (
        or_else (get_rpc_auth_from_env_file e none)
          (get_rpc_auth_from_cookie e none (some network) none))
    credentials (host ∷ auth ∷ []) network = parse_rpc_auth auth
    credentials _ network = err tt

    -- From the port of the first argument on.
    unfoldable pub parse_rest : List Str → Str × Str → Str → Result LdkUserInfo
    unfolding listening_port parse_network credentials announced_name parse_addresses parse_uint
    parse_rest parts (host, port) dir = do
      rpc_port ← unwrap (parse_uint u16_max port)
      let peer_port = listening_port (nth 3 e.args)
      let arg_idx = if peer_port.1 then 4 else 3
      network ← parse_network (nth arg_idx e.args)
      auth ← credentials parts network
      name ← announced_name (nth (arg_idx + 1) e.args)
      addrs ← parse_addresses (drop (name_index (nth (arg_idx + 1) e.args) arg_idx + 1) e.args)
      ok (record {
        bitcoind_rpc_username = auth.0;
        bitcoind_rpc_password = auth.1;
        bitcoind_rpc_host = host;
        bitcoind_rpc_port = rpc_port;
        ldk_storage_dir_path = dir;
        ldk_peer_listening_port = peer_port.0;
        ldk_announced_listen_addr = addrs;
        ldk_announced_node_name = name;
        network = network;
      })

    -- With two arguments or more.
    unfoldable pub parse_arguments : Result LdkUserInfo
    unfolding parse_rest split rsplitn2
    parse_arguments = do
      info ← unwrap (nth 1 e.args)
      path ← host_and_port (split b':' (first_part (rsplitn2 b'@' info)))
      dir ← unwrap (nth 2 e.args)
      parse_rest (rsplitn2 b'@' info) path dir

    unfoldable pub parse_startup_args : Result LdkUserInfo
    unfolding get_config_info parse_arguments
    parse_startup_args =
        if nth 1 e.args == some (str "workshop")
        then get_config_info
        else if ltb (length e.args) 3
        then err tt
        else parse_arguments
