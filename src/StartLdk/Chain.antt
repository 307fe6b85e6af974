-- ===== src/StartLdk/Chain.antt =====
-- Steps 7 and 11 to 14 of `start_ldk` of src/main.rs: the channel manager and the channel monitors
-- that were saved, or a fresh channel manager, and their way to the tip of the chain. Their types and
-- encodings are LDK's.
use programming_lightning_bu.Base.{
  str, Bool, true, false, Option, List, [], ◌∷◌, ◌++◌, map, Outcome, ok, err, panic, unwrap,
  if◌then◌else◌,
}
use programming_lightning_bu.Exec.{IoError, Exec, pure, lift, ◌>>=◌, ◌>>◌}
use programming_lightning_bu.FilePath.{FilePath}
use programming_lightning_bu.Fs.{Io, open_read, read_file}
use programming_lightning_bu.FilesystemStore.{Process}
use programming_lightning_bu.Payments.{Bytes}
use programming_lightning_bu.Node.{
  Ldk, Node, Call, Listener, channel_manager, output_sweeper, channel_monitor,
  synchronize_listeners, watch_channel, tell, ask,
}

pub record Chain (M S : Type 0) : Type 0 where
  -- `get_funding_txo().0`
  pub funding_txo : M → Bytes
  -- `read_all_channel_monitors_with_updates`: each monitor with the block that it has reached.
  pub read_monitors : Exec Process (List (Bytes × M))
  -- `get_best_block` and `validate_best_block_header`
  pub best_block : Outcome IoError Bytes
  pub polled_chain_tip : Outcome IoError Bytes
  -- The block that the channel manager has reached, and the monitors, which it may change.
  pub read_manager : Bytes → List (Bytes × M) → Option (Bytes × List (Bytes × M))
  -- The block that the channel manager is at.
  pub current_best_block : List Call → Bytes
  pub read_sweeper : Bytes → Option S
  pub sweeper_block : S → Bytes
  -- `init::synchronize_listeners` returns the tip that all have reached.
  pub synchronize : List Call → List (Bytes × Listener) → Option Bytes

-- `unwrap` and `expect` of what a call of the file system returns.
abbrev pub unwrapped : {A : Type 0} → Outcome IoError A → Outcome IoError A
unwrapped (ok a) = ok a
unwrapped (err e) = panic
unwrapped panic = panic

abbrev pub unwrap_io : {S A : Type 0} → Exec S A → Exec S A
unwrap_io m s = let (r, s') = m s in (unwrapped r, s')

abbrev pub manager_path : FilePath → FilePath
manager_path ldk_data_dir = ldk_data_dir ++ str "manager" ∷ []

module _ {M S : Type 0} (c : Chain M S) where
  -- Whether the node is restarting, the channel manager's block, and the monitors.
  unfoldable pub load_channel_manager :
      FilePath → List (Bytes × M) → Bytes → Io (Bool × Bytes × List (Bytes × M))
  unfolding ◌>>=◌
  load_channel_manager ldk_data_dir channelmonitors tip w =
      let path = manager_path ldk_data_dir in
      let (opened, w') = open_read path w in
      elim opened [
        | ok f ↦
            (do
              content ← unwrap_io (read_file path)
              (blockhash, monitors) ← lift (unwrap (c.read_manager content channelmonitors))
              pure (true, blockhash, monitors))
              w'
        | err e ↦ (ok (false, tip, channelmonitors), w')
        | panic ↦ (panic, w')
      ]

  unfoldable pub chain_listeners : Bytes → Bytes → List (Bytes × M) → List (Bytes × Listener)
  chain_listeners manager_blockhash sweeper_blockhash channelmonitors =
      (manager_blockhash, channel_manager)
      ∷ (sweeper_blockhash, output_sweeper)
      ∷ map (λ (blockhash, m). (blockhash, channel_monitor (c.funding_txo m))) channelmonitors

  -- The tip that is reached, and the monitors that go to the chain monitor.
  unfoldable pub sync_to_tip :
      Bool → Bytes → Bytes → Bytes → List (Bytes × M) → Exec Node (Bytes × List (Bytes × M))
  unfolding chain_listeners tell ◌>>=◌
  sync_to_tip restarting_node manager_blockhash sweeper_blockhash tip channelmonitors n =
      let listeners = chain_listeners manager_blockhash sweeper_blockhash channelmonitors in
      (if restarting_node
          then (do
            tell (synchronize_listeners listeners)
            reached ← lift (unwrap (c.synchronize n.calls listeners))
            pure (reached, channelmonitors))
          else pure (tip, []))
        n

  -- Each `watch_channel` has to complete.
  unfoldable pub watch_monitors : Ldk → List (Bytes × M) → Exec Node (Unit {0})
  unfolding ask ◌>>=◌
  watch_monitors l [] = pure tt
  watch_monitors l ((blockhash, m) ∷ monitors) = do
    completed ← ask l (watch_channel (c.funding_txo m))
    elim completed [ true ↦ watch_monitors l monitors | false ↦ lift panic ]
