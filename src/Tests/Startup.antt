-- ===== src/Tests/Startup.antt =====
-- Runs of the arguments, of the file of the channel peers and of paying an offer.
use programming_lightning_bu.HexUtils.{to_compressed_pubkey, to_vec}
use programming_lightning_bu.Cli.PeerInfo.{parse_peer_info}
use programming_lightning_bu.Base.{
  ◌≡◌, refl, Str, str, Option, none, some, [], ◌∷◌, ◌++◌, ok, list_eq, nat_eq, All, replicate,
}
use programming_lightning_bu.Base.Dict.{lookup, insert}
use programming_lightning_bu.Exec
use programming_lightning_bu.FilePath.{FilePath}
use programming_lightning_bu.Text.{
  lines, end_lines, split, cons_head, words, words_from, space_width, parse_uint, digits, u16_max,
  strip_cr,
}
use programming_lightning_bu.Fs.{
  exists, read_file, World, file, dir, open_read, call, exists, read_file,
}
use programming_lightning_bu.Payments.{Bytes}
use programming_lightning_bu.Cli.Offer.{bitcoin, pay_offer, agreed_amount, offer_amount}
use programming_lightning_bu.Cli.OfferLaws.{pay_offer_stuck}
use programming_lightning_bu.Disk.{persist_channel_peer, read_channel_peer_data}
use programming_lightning_bu.Disk.Lines.{collect_peers}
use programming_lightning_bu.Disk.Laws.{map_ok, IsLine, unlines, read-persist}
use programming_lightning_bu.Args.{Environment, LdkUserInfo, testnet}
use programming_lightning_bu.Args.Startup.{parse_startup_args}
use programming_lightning_bu.Args.Laws.{parse_startup_args-credentials}
use programming_lightning_bu.Tests.{ldk, node, Lacks-all}

abbrev environment : Environment
environment = record {
  args =
      str "node"
      ∷ ((str "user" ++ b':' ∷ str "p@ss") ++ b'@' ∷ (str "host" ++ b':' ∷ str "8332"))
      ∷ str "data"
      ∷ [];
  home_dir = none;
  var = λ k. none;
  read_to_string = λ p. none;
}

port : parse_uint u16_max (str "8332") ≡ some 8332
unfolding parse_uint digits
port = refl

abbrev pub info : LdkUserInfo
info = record {
  bitcoind_rpc_username = str "user";
  bitcoind_rpc_password = str "p@ss";
  bitcoind_rpc_port = 8332;
  bitcoind_rpc_host = str "host";
  ldk_storage_dir_path = str "data";
  ldk_peer_listening_port = 9735;
  ldk_announced_listen_addr = [];
  ldk_announced_node_name = replicate 32 0;
  network = testnet;
}

abbrev no_address : Str → Option Bytes
no_address s = none

parse_startup_args_example : parse_startup_args no_address environment ≡ ok info
parse_startup_args_example =
    parse_startup_args-credentials no_address environment (str "node") (str "user") (str "p@ss")
      (str "host") (str "8332") (str "data") 8332 refl (Lacks-all b':' (str "user") refl)
      (Lacks-all b':' (str "p@ss") refl) (Lacks-all b':' (str "host") refl)
      (Lacks-all b'@' (str "host") refl) (Lacks-all b':' (str "8332") refl)
      (Lacks-all b'@' (str "8332") refl) port

abbrev first_text : Str
first_text = replicate 66 b'a' ++ str "@1"

abbrev second_text : Str
second_text = replicate 66 b'b' ++ str "@2"

abbrev first_pubkey : Bytes
first_pubkey = replicate 33 170

abbrev second_pubkey : Bytes
second_pubkey = replicate 33 187

abbrev peers_path : FilePath
peers_path = str "data" ∷ str "channel_peer_data" ∷ []

abbrev peers_world : World
peers_world = record {
  disk = (str "data" ∷ [], dir) ∷ (peers_path, file (first_text ++ 10 ∷ [])) ∷ [];
  faults = [];
}

peers_there : lookup peers_path peers_world.disk ≡ some (file (unlines (first_text ∷ [])))
unfolding lookup unlines nat_eq list_eq
peers_there = refl

data_there : lookup (str "data" ∷ []) peers_world.disk ≡ some dir
unfolding lookup nat_eq list_eq
data_there = refl

are_lines : All IsLine (first_text ∷ second_text ∷ [])
unfolding strip_cr
are_lines = ((Lacks-all 10 first_text refl, refl), ((Lacks-all 10 second_text refl, refl), tt))

known :
    (read_channel_peer_data some some (λ s. some (s ∷ [])) peers_path peers_world).0
    ≡ ok ((first_pubkey, str "1") ∷ [])
unfolding read_channel_peer_data exists open_read read_file call collect_peers parse_peer_info
    to_compressed_pubkey to_vec lines end_lines strip_cr split cons_head lookup insert list_eq
    nat_eq Exec.◌>>=◌
known = refl

new_peer : parse_peer_info some (λ s. some (s ∷ [])) second_text ≡ ok (second_pubkey, str "2")
unfolding parse_peer_info to_compressed_pubkey to_vec split cons_head
new_peer = refl

read-persist_example :
    map_ok
      (lookup second_pubkey)
      (read_channel_peer_data some some
        (λ s. some (s ∷ []))
        peers_path
        (persist_channel_peer (str "data" ∷ []) peers_path second_text peers_world).1).0
    ≡ ok (some (str "2"))
unfolding nat_eq list_eq
read-persist_example =
    read-persist some some (λ s. some (s ∷ [])) (str "data" ∷ []) peers_path (first_text ∷ [])
      second_text second_text second_pubkey (str "2") second_pubkey ((first_pubkey, str "1") ∷ [])
      peers_world refl data_there peers_there are_lines known refl new_peer

command : words (str "sendpayment lno1") ≡ str "sendpayment" ∷ str "lno1" ∷ []
unfolding words words_from space_width
command = refl

offered : agreed_amount (bitcoin 50) none ≡ some 50
unfolding agreed_amount offer_amount
offered = refl

pay_offer_stuck_example :
    pay_offer ldk 3
      (str "sendpayment lno1")
      (some (str "Y") ∷ some (str "Y") ∷ [])
      (1 ∷ [])
      (bitcoin 50)
      none
      (9 ∷ [])
      node
    ≡ (ok (none, some (str "Y") ∷ some (str "Y") ∷ []), node)
pay_offer_stuck_example =
    pay_offer_stuck ldk 3 (str "sendpayment lno1") (str "lno1" ∷ []) (str "Y" ∷ str "Y" ∷ [])
      (1 ∷ []) (9 ∷ []) (bitcoin 50) 50 node command offered

abbrev nine : Bytes
nine = 9 ∷ []
