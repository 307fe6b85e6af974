-- ===== src/StartLdk/ShutdownLaws.antt =====
-- What is saved at the end.
use programming_lightning_bu.Base.{◌≡◌, true, ok, err, arith, ◌∷◌, ◌++◌, []}
use programming_lightning_bu.Exec.{IoError}
use programming_lightning_bu.FilesystemStore.Complete.{IsWritable}
use programming_lightning_bu.FilesystemStore.Locks.{Process}
use programming_lightning_bu.FilesystemStore.{dest_file_path, get_dest_dir_path, tmp_path}
use programming_lightning_bu.Node.{Ldk, Node, disconnect_all_peers}
use programming_lightning_bu.StartLdk.Shutdown.{
  JoinResult, finished, background_processor, Manager, shutdown, last_ditch,
}

module _ (l : Ldk) (m : Manager) where
  -- No directory or special file is in the way of the channel manager's file.
  abbrev pub HasRoom : Process → Type 0
  HasRoom t =
      let dest = dest_file_path t.store.data_dir m.primary m.secondary m.key in
      IsWritable t.world.disk (get_dest_dir_path t.store.data_dir m.primary m.secondary) dest
        (tmp_path dest t.store.tmp_file_counter)

  -- The node that has told LDK to disconnect.
  abbrev disconnected : Node → Node
  disconnected n = record n { calls = n.calls ++ disconnect_all_peers ∷ [] }

  -- If the background processor returned an error, which it does when it cannot write, and has
  -- dropped its end of the channel, the program ends without an error and the channel manager is not
  -- written.
  shutdown-unsaved :
      (e : IoError) (awaited : JoinResult) (n : Node)
      → shutdown l m (background_processor (finished (err e))) true awaited n
        ≡ (ok tt, disconnected n)
  unfolding shutdown last_ditch
  shutdown-unsaved e awaited n = ground arith
