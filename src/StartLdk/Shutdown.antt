-- ===== src/StartLdk/Shutdown.antt =====
-- The end of `start_ldk` of src/main.rs, when the command line or the background processor has
-- ended. LDK's names for the channel manager's key, and its encoding, are parameters.
use programming_lightning_bu.Base.{Str, Bool, List, if◌then◌else◌, Outcome, ok, err, panic}
use programming_lightning_bu.Exec.{IoError, Exec, pure, lift, ◌>>=◌, ◌>>◌}
use programming_lightning_bu.Payments.{Bytes}
use programming_lightning_bu.FilesystemStore.{write}
use programming_lightning_bu.Node.{
  Ldk, Node, Call, command_line, process_of, with_process, disconnect_all_peers, tell,
}

-- The result of a task: it panicked or was aborted, or what `process_events_async` returned.
pub data JoinResult : Type 0 where
  join_error : JoinResult
  finished : Outcome IoError (Unit {0}) → JoinResult

-- Which of the two ended first.
pub data Exit : Type 0 where
  cli_poll : Exit
  background_processor : JoinResult → Exit

pub record Manager : Type 0 where
  pub primary : Str
  pub secondary : Str
  pub key : Str
  pub encode : List Call → Bytes

abbrev pub bg_res : Exit → JoinResult
bg_res cli_poll = finished (ok tt)
bg_res (background_processor r) = r

-- `background_processor.await.unwrap().unwrap()`
abbrev unwrap_join : JoinResult → Outcome IoError (Unit {0})
unwrap_join join_error = panic
unwrap_join (finished (ok x)) = ok x
unwrap_join (finished (err e)) = panic
unwrap_join (finished panic) = panic

module _ (l : Ldk) (m : Manager) where
  -- The write of the channel manager by the command line's store, whose result is then printed by a
  -- panic.
  unfoldable pub last_ditch : Exec Node (Unit {0})
  last_ditch n =
      let (r, p) =
        write l.config m.primary m.secondary m.key (m.encode n.calls) (process_of command_line n) in
      (panic, with_process command_line p n)

  -- `closed` is `bp_exit.is_closed()`, and `awaited` what the background processor returns when it
  -- is waited for.
  unfoldable pub shutdown : Exit → Bool → JoinResult → Exec Node (Unit {0})
  unfolding last_ditch tell ◌>>=◌
  shutdown exit closed awaited = do
    tell disconnect_all_peers
    elim (bg_res exit) [
      | join_error ↦ last_ditch
      | finished r ↦ if closed then pure tt else lift (unwrap_join awaited)
    ]
