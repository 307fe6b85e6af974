-- ===== src/Cli/Channels.antt =====
-- Opening and closing channels in src/cli.rs: the functions and the arms of `poll_for_user_input`
-- that call them, given the words behind the command. An error message and `continue` leave the
-- node as it is.
use programming_lightning_bu.Base.{
  ℕ, Str, str, Bool, true, false, ◌||◌, Option, none, some, List, [], ◌∷◌, ◌++◌, ok, err, panic,
  if◌then◌else◌, ◌==◌, list_eq, nat_eq, eqb, length,
}
use programming_lightning_bu.Exec.{Exec, ◌>>=◌, ◌>>◌, pure}
use programming_lightning_bu.FilePath.{FilePath}
use programming_lightning_bu.Text.{parse_uint, u64_max}
use programming_lightning_bu.HexUtils.{to_vec}
use programming_lightning_bu.Payments.{Bytes}
use programming_lightning_bu.Node.{
  Ldk, Node, create_channel, close_channel as close_channel_call,
  force_close_channel as force_close_channel_call, ask,
}
use programming_lightning_bu.Peers.{connect_peer_if_necessary}
use programming_lightning_bu.Disk.{persist_channel_peer}
use programming_lightning_bu.Cli.PeerInfo.{parse_peer_info}

-- The parsers of other crates.
pub record Parsers : Type 0 where
  pub from_slice : Bytes → Option Bytes
  pub to_socket_addrs : Str → Option (List Bytes)

-- What a word does to `announce_channel` and `with_anchors`: another word prints an error, and its
-- `continue` goes on with the next word.
unfoldable pub set_flag : Str → Bool × Bool → Bool × Bool
set_flag word (announce, anchors) =
    if word == str "--public" || word == str "--public=true"
    then (true, anchors)
    else if word == str "--public=false"
    then (false, anchors)
    else if word == str "--with-anchors" || word == str "--with-anchors=true"
    then (announce, true)
    else if word == str "--with-anchors=false"
    then (announce, false)
    else (announce, anchors)

unfoldable pub set_flags : List Str → Bool × Bool → Bool × Bool
unfolding set_flag
set_flags [] flags = flags
set_flags (word ∷ words) flags = set_flags words (set_flag word flags)

abbrev channel_id_of : Option Bytes → Option Bytes
channel_id_of none = none
channel_id_of (some id) = if eqb (length id) 32 then some id else none

-- The channel's id and the peer's key in the words behind `closechannel` and `forceclosechannel`.
unfoldable pub parse_channel : Parsers → List Str → Option (Bytes × Bytes)
unfolding to_vec
parse_channel parsers (channel_id_str ∷ peer_pubkey_str ∷ rest) =
    elim (channel_id_of (to_vec channel_id_str)) [
      | none ↦ none
      | some channel_id ↦ elim (to_vec peer_pubkey_str) [
        | none ↦ none
        | some peer_pubkey_vec ↦ elim (parsers.from_slice peer_pubkey_vec) [
          | none ↦ none
          | some peer_pubkey ↦ some (channel_id, peer_pubkey)
        ]
      ]
    ]
parse_channel parsers _ = none

module _ (l : Ldk) where
  -- Whether the function returns `Ok(())`.
  unfoldable pub open_channel : Bytes → ℕ → Bool → Bool → Exec Node Bool
  unfolding ask
  open_channel peer_pubkey channel_amt_sat announce_for_forwarding with_anchors =
      ask l (create_channel peer_pubkey channel_amt_sat announce_for_forwarding with_anchors)

  unfoldable pub close_channel : Bytes → Bytes → Exec Node (Unit {0})
  unfolding ask ◌>>=◌
  close_channel channel_id counterparty_node_id = do
    ask l (close_channel_call channel_id counterparty_node_id)
    pure tt

  unfoldable pub force_close_channel : Bytes → Bytes → Exec Node (Unit {0})
  unfolding ask ◌>>=◌
  force_close_channel channel_id counterparty_node_id = do
    ask l (force_close_channel_call channel_id counterparty_node_id)
    pure tt

  -- `disk::persist_channel_peer`, its result ignored.
  unfoldable pub remember_peer : FilePath → Str → Exec Node (Unit {0})
  unfolding persist_channel_peer
  remember_peer ldk_data_dir peer_info n =
      let path = ldk_data_dir ++ str "channel_peer_data" ∷ [] in
      let (r, w) = persist_channel_peer ldk_data_dir path peer_info n.process.world in
      (ok tt, record n { process = record n.process { world = w } })

  -- Behind the two arguments that were read.
  unfoldable pub open_to : FilePath → Str → Bytes × Bytes → ℕ → List Str → Exec Node (Unit {0})
  unfolding connect_peer_if_necessary set_flags open_channel remember_peer ◌>>=◌
  open_to ldk_data_dir peer_info (pubkey, peer_addr) chan_amt_sat rest = do
    connected ← connect_peer_if_necessary l pubkey peer_addr
    let flags = set_flags rest (false, false)
    if connected
        then (do
          opened ← open_channel pubkey chan_amt_sat flags.0 flags.1
          if opened then remember_peer ldk_data_dir peer_info else pure tt)
        else pure tt

  unfoldable pub on_openchannel : Parsers → FilePath → List Str → Exec Node (Unit {0})
  unfolding parse_peer_info parse_uint open_to
  on_openchannel parsers ldk_data_dir (peer_info ∷ channel_value_sat ∷ rest) =
      elim (parse_peer_info parsers.from_slice parsers.to_socket_addrs peer_info) [
        | ok info ↦ elim (parse_uint u64_max channel_value_sat) [
          | some chan_amt_sat ↦ open_to ldk_data_dir peer_info info chan_amt_sat rest
          | none ↦ pure tt
        ]
        | err e ↦ pure tt
        | panic ↦ λ n. (panic, n)
      ]
  on_openchannel parsers ldk_data_dir _ = pure tt

  unfoldable pub on_closechannel : Parsers → List Str → Exec Node (Unit {0})
  unfolding parse_channel close_channel
  on_closechannel parsers words = elim (parse_channel parsers words) [
    | some (channel_id, peer_pubkey) ↦ close_channel channel_id peer_pubkey
    | none ↦ pure tt
  ]

  unfoldable pub on_forceclosechannel : Parsers → List Str → Exec Node (Unit {0})
  unfolding parse_channel force_close_channel
  on_forceclosechannel parsers words = elim (parse_channel parsers words) [
    | some (channel_id, peer_pubkey) ↦ force_close_channel channel_id peer_pubkey
    | none ↦ pure tt
  ]
