-- ===== src/Peers/Laws.antt =====
-- When the calls to the peer manager are made.
use programming_lightning_bu.Base.{
  ◌≡◌, refl, Bool, true, false, not, Option, none, some, List, [], ◌∷◌, ◌++◌, contains, list_eq,
  nat_eq, ok, if◌then◌else◌, arith, ◌&&◌, any, Option-cases, inl, inr,
}
use programming_lightning_bu.Payments.{Bytes}
use programming_lightning_bu.Node.{Ldk, Node, disconnect_by_node_id, connect_outbound, tell}
use programming_lightning_bu.Peers.{
  do_connect_peer, connect_peer_if_necessary, do_disconnect_peer, wait_for_peer,
}

-- A peer is disconnected, and `Ok(())` returned, exactly if it is connected and no channel is with it;
-- otherwise nothing changes.
pub do_disconnect_peer_lem :
    (l : Ldk) (pubkey : Bytes) (n : Node)
    → do_disconnect_peer l pubkey n ≡ (
        if contains (l.peers n.calls) pubkey && not (contains (l.channel_peers n.calls) pubkey)
        then (ok true, record n { calls = n.calls ++ disconnect_by_node_id pubkey ∷ [] })
        else (ok false, n))
unfolding do_disconnect_peer
do_disconnect_peer_lem l pubkey n = ground arith

wait_for_peer_lem : (polls : List Bool) → wait_for_peer polls ≡ any (λ b. b) polls
unfolding wait_for_peer
wait_for_peer_lem [] = refl
wait_for_peer_lem (b ∷ polls) = ground (arith, wait_for_peer_lem polls)

abbrev pub known_before_close : Option (List Bool) → Bool
known_before_close none = false
known_before_close (some polls) = any (λ b. b) polls

-- No connection is opened to a peer that is connected. To any other one connection is opened, and
-- the result is `Ok(())` exactly if there is a connection and the peer is known at some poll before
-- it is closed.
pub connect_peer_if_necessary_lem :
    (l : Ldk) (pubkey addr : Bytes) (n : Node)
    → connect_peer_if_necessary l pubkey addr n ≡ (
        if contains (l.peers n.calls) pubkey then (ok true, n) else (
          ok (known_before_close (l.connection n.calls pubkey addr)),
          record n { calls = n.calls ++ connect_outbound pubkey addr ∷ [] },
        ))
unfolding connect_peer_if_necessary do_connect_peer tell
connect_peer_if_necessary_lem l pubkey addr n =
    elim (Option-cases (l.connection n.calls pubkey addr)) [
      | inl e ↦ ground (arith, e)
      | inr (polls, e) ↦ ground (arith, e, wait_for_peer_lem polls)
    ]
