-- ===== src/Peers.antt =====
-- Connecting and disconnecting peers in src/cli.rs.
pub mod Laws
use programming_lightning_bu.Base.{
  ℕ, Str, Bool, true, false, not, Option, none, some, List, [], ◌∷◌, ◌++◌, contains, list_eq,
  nat_eq, Outcome, ok, err, panic, if◌then◌else◌,
}
use programming_lightning_bu.Exec.{IoError, Exec, ◌>>=◌, ◌>>◌, pure}
use programming_lightning_bu.Payments.{Bytes}
use programming_lightning_bu.Node.{Ldk, Node, Call, connect_outbound, disconnect_by_node_id, tell}

-- The loop around `select!`: `true` is `Ok(())`.
unfoldable pub wait_for_peer : List Bool → Bool
wait_for_peer [] = false
wait_for_peer (known ∷ polls) = let rest = wait_for_peer polls in if known then true else rest

module _ (l : Ldk) where
  -- The result is whether the function returns `Ok(())`.
  unfoldable pub do_connect_peer : Bytes → Bytes → Exec Node Bool
  unfolding wait_for_peer tell ◌>>=◌
  do_connect_peer pubkey peer_addr n =
      (do
        tell (connect_outbound pubkey peer_addr)
        elim (l.connection n.calls pubkey peer_addr) [
          | some polls ↦ pure (wait_for_peer polls)
          | none ↦ pure false
        ])
        n

  unfoldable pub connect_peer_if_necessary : Bytes → Bytes → Exec Node Bool
  unfolding do_connect_peer
  connect_peer_if_necessary pubkey peer_addr n =
      if contains (l.peers n.calls) pubkey then (ok true, n) else do_connect_peer pubkey peer_addr n

  unfoldable pub do_disconnect_peer : Bytes → Exec Node Bool
  unfolding tell ◌>>=◌
  do_disconnect_peer pubkey n =
      if contains (l.channel_peers n.calls) pubkey
      then (ok false, n)
      else if not (contains (l.peers n.calls) pubkey)
      then (ok false, n)
      else (do tell (disconnect_by_node_id pubkey); pure true) n

  -- The addresses of `ConnectionNeeded`, those that resolve with what they resolve to: it stops at
  -- the first peer that is connected.
  unfoldable pub connect_addresses : Bytes → List (Option (List Bytes)) → Exec Node (Unit {0})
  unfolding connect_peer_if_necessary ◌>>=◌
  connect_addresses node_id [] = pure tt
  connect_addresses node_id (none ∷ addresses) = connect_addresses node_id addresses
  connect_addresses node_id (some [] ∷ addresses) = connect_addresses node_id addresses
  connect_addresses node_id (some (addr ∷ sockaddrs) ∷ addresses) = do
    done ← connect_peer_if_necessary node_id addr
    elim done [ true ↦ pure tt | false ↦ connect_addresses node_id (some sockaddrs ∷ addresses) ]
