-- ===== src/StartLdk/Tasks.antt =====
-- The tasks that `start_ldk` of src/main.rs spawns: connecting to the peers of channels, once a
-- second, and announcing the node, once an hour. `stopped` is the flag `stop_listen_connect`.
use programming_lightning_bu.Base.{
  any, Bool, true, false, List, [], ◌∷◌, ◌==◌, list_eq, nat_eq, contains, if◌then◌else◌, Outcome,
  ok, err, panic,
}
use programming_lightning_bu.Base.Dict.{Dict}
use programming_lightning_bu.Exec.{IoError, Exec, pure, ◌>>=◌, ◌>>◌}
use programming_lightning_bu.Payments.{Bytes}
use programming_lightning_bu.Node.{Ldk, Node, Call, broadcast_node_announcement, tell}
use programming_lightning_bu.Peers.{do_connect_peer}

module _ (l : Ldk) where
  -- The loop over the recorded addresses.
  unfoldable pub connect_recorded : Bytes → Dict Bytes Bytes → Exec Node (Unit {0})
  unfolding do_connect_peer ◌>>=◌
  connect_recorded node_id [] n = (ok tt, n)
  connect_recorded node_id ((pubkey, peer_addr) ∷ info) n =
      let rest = connect_recorded node_id info in
      if pubkey == node_id then (do_connect_peer l pubkey peer_addr >> rest) n else rest n

  -- The loop over the counterparties of the channels, each looked at when its turn comes. The
  -- result is whether the task goes on.
  unfoldable pub reconnect_peers :
      (List Call → Bool) → Dict Bytes Bytes → List Bytes → Exec Node Bool
  unfolding connect_recorded ◌>>=◌
  reconnect_peers stopped info [] n = (ok true, n)
  reconnect_peers stopped info (node_id ∷ node_ids) n =
      let rest = reconnect_peers stopped info node_ids in
      if contains (l.peers n.calls) node_id
      then rest n
      else if stopped n.calls
      then (ok false, n)
      else (connect_recorded node_id info >> rest) n

  -- One tick, with the result of `read_channel_peer_data`.
  unfoldable pub reconnect_tick :
      (List Call → Bool) → Outcome IoError (Dict Bytes Bytes) → Exec Node Bool
  unfolding reconnect_peers
  reconnect_tick stopped (ok info) n = reconnect_peers stopped info (l.channel_peers n.calls) n
  reconnect_tick stopped (err e) n = (ok true, n)
  reconnect_tick stopped panic n = (panic, n)

-- One tick, with `is_announced` of the channels.
unfoldable pub announce_tick : List Bool → Bytes → List Bytes → Exec Node (Unit {0})
unfolding tell
announce_tick is_announced node_name listen_addr =
    if any (λ b. b) is_announced
    then tell (broadcast_node_announcement node_name listen_addr)
    else pure tt
