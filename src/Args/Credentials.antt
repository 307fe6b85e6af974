-- ===== src/Args/Credentials.antt =====
-- The functions of src/args.rs that look for bitcoind's RPC user name and password.
use programming_lightning_bu.Base.{
  Str, str, Bool, true, false, Option, none, some, List, [], ◌∷◌, Outcome, ok, err, panic, ok_or,
  ◌>>=◌, list_eq, nat_eq,
}
use programming_lightning_bu.Base.Dict.{Dict, lookup, insert}
use programming_lightning_bu.FilePath.{FilePath, components, push}
use programming_lightning_bu.Text.{split, splitn2, lines}
use programming_lightning_bu.Args.{
  Network, testnet, signet, regtest, Environment, default_bitcoin_datadir, rpc_user_key,
  rpc_password_key,
}

-- `Result<_, ()>`
abbrev pub Result : Type 0 → Type 0
Result = Outcome (Unit {0})

-- `Result::or`
abbrev pub or_else : {A : Type 0} → Result A → Result A → Result A
or_else (ok a) other = ok a
or_else (err e) other = other
or_else panic other = panic

abbrev two_parts : List Str → Result (Str × Str)
two_parts (a ∷ b ∷ []) = ok (a, b)
two_parts _ = err tt

unfoldable pub parse_rpc_auth : Str → Result (Str × Str)
unfolding split
parse_rpc_auth rpc_auth = two_parts (split b':' rpc_auth)

-- The directory that bitcoind keeps a network's data in.
unfoldable pub with_network : FilePath → Option Network → FilePath
unfolding push
with_network p (some testnet) = push p (str "testnet3")
with_network p (some regtest) = push p (str "regtest")
with_network p (some signet) = push p (str "signet")
with_network p _ = p

abbrev name_or : Str → Option Str → Str
name_or default none = default
name_or default (some name) = name

module _ (e : Environment) where
  unfoldable pub data_dir_path : Option (Str × Bool) → Result FilePath
  unfolding components push
  data_dir_path (some (dir, true)) = do home ← ok_or e.home_dir tt; ok (push (components home) dir)
  data_dir_path (some (dir, false)) = ok (components dir)
  data_dir_path none = do
    home ← ok_or e.home_dir tt
    ok (push (components home) default_bitcoin_datadir)

  unfoldable pub get_cookie_path :
      Option (Str × Bool) → Option Network → Option Str → Result FilePath
  unfolding data_dir_path with_network push
  get_cookie_path data_dir network cookie_file_name = do
    path ← data_dir_path data_dir
    ok (push (with_network path network) (name_or (str ".cookie") cookie_file_name))

  unfoldable pub get_rpc_auth_from_cookie :
      Option (Str × Bool) → Option Network → Option Str → Result (Str × Str)
  unfolding get_cookie_path parse_rpc_auth
  get_rpc_auth_from_cookie data_dir network cookie_file_name = do
    cookie_path ← get_cookie_path data_dir network cookie_file_name
    cookie_contents ← ok_or (e.read_to_string cookie_path) tt
    parse_rpc_auth cookie_contents

  unfoldable pub get_rpc_auth_from_env_vars : Result (Str × Str)
  get_rpc_auth_from_env_vars = do
    username ← ok_or (e.var rpc_user_key) tt
    password ← ok_or (e.var rpc_password_key) tt
    ok (username, password)

  -- The loop over the lines of a .env file.
  unfoldable pub collect_lines : List Str → Dict Str Str → Result (Dict Str Str)
  unfolding splitn2
  collect_lines [] env_file_map = ok env_file_map
  collect_lines (line ∷ rest) env_file_map = do
    (key, value) ← two_parts (splitn2 b'=' line)
    collect_lines rest (insert key value env_file_map)

  unfoldable pub parse_env_file : Option Str → Result (Dict Str Str)
  unfolding collect_lines lines components
  parse_env_file env_file_name = do
    contents ← ok_or (e.read_to_string (components (name_or (str ".env") env_file_name))) tt
    collect_lines (lines contents) []

  unfoldable pub get_rpc_auth_from_env_file : Option Str → Result (Str × Str)
  unfolding parse_env_file
  get_rpc_auth_from_env_file env_file_name = do
    env_file_map ← parse_env_file env_file_name
    username ← ok_or (lookup rpc_user_key env_file_map) tt
    password ← ok_or (lookup rpc_password_key env_file_map) tt
    ok (username, password)
