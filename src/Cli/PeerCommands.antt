-- ===== src/Cli/PeerCommands.antt =====
-- The records and their files through the commands about peers and channels.
use programming_lightning_bu.Base.{
  ℕ, refl, Str, Option, none, some, List, [], ◌∷◌, ok, err, panic, Outcome, list_eq, nat_eq,
}
use programming_lightning_bu.Exec.{IoError, Exec, ◌>>=◌, ◌>>◌, pure}
use programming_lightning_bu.Payments.{Bytes}
use programming_lightning_bu.Text.{words, parse_uint, u64_max}
use programming_lightning_bu.Node.{Node, get_address, tell, ask}
use programming_lightning_bu.Node.Durable.{IsDurable, TakesNames}
use programming_lightning_bu.Cli.Saves.{
  Saves, bind-Saves, Quiet-IsDurable, connect-Quiet, disconnect-Quiet,
}
use programming_lightning_bu.Peers.{connect_peer_if_necessary, do_disconnect_peer}
use programming_lightning_bu.Cli.PeerInfo.{parse_peer_info}
use programming_lightning_bu.Cli.Channels.{
  on_openchannel, on_closechannel, on_forceclosechannel, parse_channel, open_to, close_channel,
  force_close_channel,
}
use programming_lightning_bu.Cli.PeersFile.{open_to-Saves}
use programming_lightning_bu.Cli.Commands.{Setup, on_connectpeer, on_disconnectpeer}

module _ (s : Setup) (names : TakesNames s.ldk) (n : Node) (d : IsDurable s.ldk n) where
  abbrev Kept : {A : Type 0} → Exec Node A → Type 0
  Kept m = Saves s.ldk names n m

  pub connectpeer-Kept : (words : List Str) → Kept (on_connectpeer s words)
  unfolding on_connectpeer
  connectpeer-Kept [] = λ b e. d
  connectpeer-Kept (peer_info ∷ rest) =
      go (parse_peer_info s.parsers.from_slice s.parsers.to_socket_addrs peer_info)
    where
      go :
          (o : Outcome IoError (Bytes × Bytes))
          → Kept (elim o as (λ _. Exec Node (Unit {0})) [
            | ok (pubkey, peer_addr) ↦ connect_peer_if_necessary s.ldk pubkey peer_addr >> pure tt
            | err e ↦ pure tt
            | panic ↦ λ n. (panic, n)
          ])
      go (ok (pubkey, addr)) =
          bind-Saves s.ldk names (connect_peer_if_necessary s.ldk pubkey addr) (λ _. pure tt) n
            (λ a e _ _. Quiet-IsDurable s.ldk names n _ (connect-Quiet s.ldk names pubkey addr n) d)
      go (err x) = λ b e. d
      go panic = λ b e. d

  pub disconnectpeer-Kept : (words : List Str) → Kept (on_disconnectpeer s words)
  unfolding on_disconnectpeer
  disconnectpeer-Kept [] = λ b e. d
  disconnectpeer-Kept (peer_pubkey ∷ rest) = go (s.public_key peer_pubkey)
    where
      go :
          (o : Option Bytes)
          → Kept (elim o as (λ _. Exec Node (Unit {0})) [
            | some pubkey ↦ do_disconnect_peer s.ldk pubkey >> pure tt
            | none ↦ pure tt
          ])
      go none = λ b e. d
      go (some pubkey) =
          bind-Saves s.ldk names (do_disconnect_peer s.ldk pubkey) (λ _. pure tt) n
            (λ a e _ _. Quiet-IsDurable s.ldk names n _ (disconnect-Quiet s.ldk names pubkey n) d)

  pub close-Kept : (words : List Str) → Kept (on_closechannel s.ldk s.parsers words)
  unfolding on_closechannel close_channel ask ◌>>=◌
  close-Kept words = go (parse_channel s.parsers words)
    where
      go :
          (o : Option (Bytes × Bytes))
          → Kept (elim o as (λ _. Exec Node (Unit {0})) [
            | some (id, key) ↦ close_channel s.ldk id key
            | none ↦ pure tt
          ])
      go none = λ b e. d
      go (some (id, key)) = λ b e. Quiet-IsDurable s.ldk names n _ (_, refl) d

  pub force_close-Kept : (words : List Str) → Kept (on_forceclosechannel s.ldk s.parsers words)
  unfolding on_forceclosechannel force_close_channel ask ◌>>=◌
  force_close-Kept words = go (parse_channel s.parsers words)
    where
      go :
          (o : Option (Bytes × Bytes))
          → Kept (elim o as (λ _. Exec Node (Unit {0})) [
            | some (id, key) ↦ force_close_channel s.ldk id key
            | none ↦ pure tt
          ])
      go none = λ b e. d
      go (some (id, key)) = λ b e. Quiet-IsDurable s.ldk names n _ (_, refl) d

  pub openchannel-Kept :
      (words : List Str) → Kept (on_openchannel s.ldk s.parsers s.ldk_data_dir words)
  unfolding on_openchannel
  openchannel-Kept [] = λ b e. d
  openchannel-Kept (peer_info ∷ []) = λ b e. d
  openchannel-Kept (peer_info ∷ value ∷ rest) =
      go (parse_peer_info s.parsers.from_slice s.parsers.to_socket_addrs peer_info)
    where
      worth :
          (info : Bytes × Bytes) (o : Option ℕ)
          → Kept (elim o as (λ _. Exec Node (Unit {0})) [
            | some chan_amt_sat ↦ open_to s.ldk s.ldk_data_dir peer_info info chan_amt_sat rest
            | none ↦ pure tt
          ])
      worth info none = λ b e. d
      worth info (some amt) =
          open_to-Saves s.ldk names s.ldk_data_dir peer_info info.0 info.1 amt rest n d

      go :
          (o : Outcome IoError (Bytes × Bytes))
          → Kept (elim o as (λ _. Exec Node (Unit {0})) [
            | ok info ↦ elim (parse_uint u64_max value) [
              | some chan_amt_sat ↦ open_to s.ldk s.ldk_data_dir peer_info info chan_amt_sat rest
              | none ↦ pure tt
            ]
            | err e ↦ pure tt
            | panic ↦ λ n. (panic, n)
          ])
      go (ok info) = worth info (parse_uint u64_max value)
      go (err x) = λ b e. d
      go panic = λ b e. d

  pub getaddress-Kept : Kept (tell get_address)
  unfolding tell
  getaddress-Kept b e = Quiet-IsDurable s.ldk names n _ (_, refl) d
