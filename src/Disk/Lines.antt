-- ===== src/Disk/Lines.antt =====
-- The loop of `read_channel_peer_data` of src/disk.rs over the lines of the file.
use programming_lightning_bu.Base.{
  Str, Option, List, [], ◌∷◌, Outcome, ok, unwrap, ◌>>=◌, list_eq, nat_eq,
}
use programming_lightning_bu.Base.Dict.{Dict, insert}
use programming_lightning_bu.Exec.{IoError}
use programming_lightning_bu.Payments.{Bytes}
use programming_lightning_bu.Cli.PeerInfo.{parse_peer_info}

module _ (from_utf8 : Bytes → Option Str) (from_slice : Bytes → Option Bytes)
    (to_socket_addrs : Str → Option (List Bytes)) where
  unfoldable pub collect_peers : List Bytes → Dict Bytes Bytes → Outcome IoError (Dict Bytes Bytes)
  unfolding parse_peer_info
  collect_peers [] peer_data = ok peer_data
  collect_peers (line ∷ rest) peer_data = do
    text ← unwrap (from_utf8 line)
    (pubkey, socket_addr) ← parse_peer_info from_slice to_socket_addrs text
    collect_peers rest (insert pubkey socket_addr peer_data)
