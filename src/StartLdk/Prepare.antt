-- ===== src/StartLdk/Prepare.antt =====
-- `start_ldk` of src/main.rs from reading the channel monitors to the payment records: what was saved
-- is read, brought to the tip of the chain and handed to LDK. The objects of LDK that only pass their
-- parts on are left out.
use programming_lightning_bu.Base.{Str, Bool, Option, ◌++◌, List, [], ◌∷◌, Outcome, ok}
use programming_lightning_bu.Exec.{IoError, Exec, lift, ◌>>=◌, ◌>>◌}
use programming_lightning_bu.FilePath.{FilePath}
use programming_lightning_bu.Fs.{World, read_file}
use programming_lightning_bu.FilesystemStore.{Process, read}
use programming_lightning_bu.FilesystemStore.Locks
use programming_lightning_bu.FilesystemStore.Locks.{on_world}
use programming_lightning_bu.Payments.{Bytes, Payments}
use programming_lightning_bu.Disk.{read_payment_info}
use programming_lightning_bu.Node.{
  Ldk, Node, Call, set_inbound, set_outbound, inbound_payments_fname, outbound_payments_fname,
}
use programming_lightning_bu.Events.{reconcile}
use programming_lightning_bu.StartLdk.{Sweeper, restored, output_sweeper}
use programming_lightning_bu.StartLdk.Chain.{
  Chain, unwrap_io, load_channel_manager, sync_to_tip, watch_monitors,
}

-- LDK's names for the sweeper's key, its readers of the records, and what its channel manager says of
-- the recent payments.
pub record Saved : Type 0 where
  pub sweeper_primary : Str
  pub sweeper_secondary : Str
  pub sweeper_key : Str
  pub read_inbound : Bytes → Option Payments
  pub read_outbound : Bytes → Option Payments
  pub recent_payments : List Call → List Bytes

-- The two stores of `start_ldk`, before anything is read.
abbrev pub new_node : FilePath → World → Node
new_node dir w = record {
  process = record { store = Locks.new dir; world = w };
  persister = Locks.new dir;
  inbound = [];
  outbound = [];
  calls = [];
}

abbrev pub on_process : {A : Type 0} → Exec Process A → Exec Node A
on_process m n = let (r, p) = m n.process in (r, record n { process = p })

-- A result that is looked at later.
abbrev pub caught : {S A : Type 0} → Exec S A → Exec S (Outcome IoError A)
caught m s = let (r, s') = m s in (ok r, s')

-- A file of payment records.
unfoldable pub read_info : (Bytes → Option Payments) → FilePath → Exec Node Payments
unfolding read_payment_info
read_info read path n =
    let w = n.process.world in
    (
      ok (read_payment_info read path w),
      record n { process = record n.process { world = (read_file path w).1 } },
    )

module _ (l : Ldk) (saved : Saved) where
  -- Step 18: the records, of which LDK's list settles which have failed.
  unfoldable pub read_records : FilePath → Exec Node (Unit {0})
  unfolding reconcile ◌>>=◌
  read_records dir n =
      (do
        inbound ← read_info saved.read_inbound (dir ++ inbound_payments_fname ∷ [])
        set_inbound inbound
        outbound ← read_info saved.read_outbound (dir ++ outbound_payments_fname ∷ [])
        set_outbound outbound
        reconcile l (saved.recent_payments n.calls))
        n

module _ {M S : Type 0} (l : Ldk) (c : Chain M S) (saved : Saved) where
  abbrev pub sweeper_blockhash : Sweeper S → List Call → Bytes
  sweeper_blockhash Sweeper.new calls = c.current_best_block calls
  sweeper_blockhash (restored s) calls = c.sweeper_block s

  -- Steps 12 to 14: the sweeper, and the way to the tip of the chain.
  unfoldable pub catch_up : Bool → Bytes → Bytes → List (Bytes × M) → Exec Node (Unit {0})
  unfolding read output_sweeper sync_to_tip watch_monitors ◌>>=◌
  catch_up restarting blockhash tip monitors n =
      (do
        found ← caught (
            on_process
              (read l.config saved.sweeper_primary saved.sweeper_secondary saved.sweeper_key))
        sweeper ← lift (output_sweeper c.read_sweeper found)
        (chain_tip, watched) ←
            sync_to_tip c restarting blockhash (sweeper_blockhash sweeper n.calls) tip monitors
        watch_monitors c l watched)
        n

  -- From the tip of the chain on.
  unfoldable pub from_tip : FilePath → List (Bytes × M) → Bytes → Exec Node (Unit {0})
  unfolding load_channel_manager catch_up ◌>>=◌
  from_tip dir channelmonitors tip = do
    (restarting, blockhash, monitors) ←
        on_process (on_world (load_channel_manager c dir channelmonitors tip))
    catch_up restarting blockhash tip monitors

  -- Steps 7 to 14.
  unfoldable pub restore : FilePath → Exec Node (Unit {0})
  unfolding from_tip ◌>>=◌
  restore dir = do
    channelmonitors ← unwrap_io (on_process c.read_monitors)
    unwrap_io (lift c.best_block)
    tip ← unwrap_io (lift c.polled_chain_tip)
    from_tip dir channelmonitors tip
