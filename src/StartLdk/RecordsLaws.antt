-- ===== src/StartLdk/RecordsLaws.antt =====
-- What a start makes of the files of the payment records.
use programming_lightning_bu.Base.Dict.{lookup}
use programming_lightning_bu.Payments.Laws.{after_restart, map_info, lookup-fail_forgotten}
use programming_lightning_bu.Base.{
  list_eq, nat_eq, ◌≡◌, refl, sym, ap, ◌∙◌, Str, ℕ, List, [], ◌∷◌, ◌++◌, Option, none, some, arith,
  Outcome, ok, subst,
}
use programming_lightning_bu.Exec.{◌>>=◌, IoError}
use programming_lightning_bu.FilePath.{FilePath}
use programming_lightning_bu.Node.{Ldk, Node, Call}
use programming_lightning_bu.Node.Durable.{IsDurable, TakesNames, outbound_file}
use programming_lightning_bu.Payments.{Bytes, Payments, fail_forgotten}
use programming_lightning_bu.Events.{reconcile}
use programming_lightning_bu.Events.Durability.{reconcile-IsDurable}
use programming_lightning_bu.Fs.{read_file, call}
use programming_lightning_bu.Fs.Laws.{content}
use programming_lightning_bu.Disk.{read_payment_info}
use programming_lightning_bu.FilesystemStore.{dest_file_path, get_dest_dir_path, tmp_path}
use programming_lightning_bu.FilesystemStore.Write.{stored}
use programming_lightning_bu.FilesystemStore.Complete.{IsWritable, write_completes}
use programming_lightning_bu.FilesystemStore.Paths.{dest_file_path-eq, namespace_dir, check-IsKey}
use mathlib.Core.List.{append-nil}
use programming_lightning_bu.FilesystemStore.Distinct.{Accepted}
use programming_lightning_bu.Node.{inbound_payments_fname, outbound_payments_fname}
use programming_lightning_bu.FilesystemStore.Locks
use programming_lightning_bu.Node.{persist, persist_outbound}
use programming_lightning_bu.StartLdk.Prepare.{Saved, new_node, read_info, read_records}

abbrev pub outcome : Outcome IoError (Unit {0}) × Node → Outcome IoError (Unit {0})
outcome (r, n) = r

-- LDK reads back the records of a node that it encoded.
pub record ReadsBack (l : Ldk) (saved : Saved) (n : Node) : Type 0 where
  pub inbound_back : saved.read_inbound (l.encode_inbound n.inbound) ≡ some n.inbound
  pub outbound_back : saved.read_outbound (l.encode_outbound n.outbound) ≡ some n.outbound

-- A new process over the directory and the files of a node, where the given calls will fail.
abbrev pub restarted : Node → List Call → List (Option ℕ) → Node
restarted n calls faults =
    record (new_node n.process.store.data_dir (record n.process.world { faults = faults })) {
      calls = calls;
    }

read_info-saved :
    (read : Bytes → Option Payments) (path : FilePath) (n : Node) (bytes : Bytes) (d : Payments)
    → n.process.world.faults ≡ []
    → content path n.process.world ≡ some bytes
    → read bytes ≡ some d
    → read_info read path n ≡ (ok d, n)
unfolding read_info read_payment_info read_file call
read_info-saved read path n bytes d calm have back = ground (arith, calm, have, back)

-- No directory or special file is in the way of the file of the outbound records.
abbrev pub Unhindered : Node → Type 0
Unhindered n =
    let dest = dest_file_path n.process.store.data_dir [] [] outbound_payments_fname in
    IsWritable n.process.world.disk (get_dest_dir_path n.process.store.data_dir [] []) dest
      (tmp_path dest 0)

-- The start on the files of the node returns, with the inbound records of the node and each outbound
-- record of the node after a restart and no other, and both files hold what is then in memory.
abbrev pub Resumed : Ldk → Saved → Node → List Call → Type 0
Resumed l saved n calls =
    let (r, again) = read_records l saved n.process.store.data_dir (restarted n calls []) in
    (r ≡ ok tt)
    × (again.inbound ≡ n.inbound)
    × ((id : Bytes)
        → lookup id again.outbound
          ≡ map_info (after_restart (saved.recent_payments calls) id) (lookup id n.outbound))
    × IsDurable l again

-- The start reads the inbound records of the node and the given outbound ones.
abbrev Reconciled : Ldk → Saved → Node → List Call → List (Option ℕ) → Payments → Type 0
Reconciled l saved n calls faults outbound =
    let (r, again) = read_records l saved n.process.store.data_dir (restarted n calls faults) in
    (r ≡ ok tt)
    × (again.inbound ≡ n.inbound)
    × (again.outbound ≡ fail_forgotten (saved.recent_payments calls) outbound)
    × IsDurable l again

module _ (l : Ldk) (names : TakesNames l) (saved : Saved) (n : Node) (back : ReadsBack l saved n)
    (d : IsDurable l n) (calls : List Call) where
  abbrev path : Str → FilePath
  path name = n.process.store.data_dir ++ name ∷ []

  abbrev recent : List Bytes
  recent = saved.recent_payments calls

  abbrev records : List (Option ℕ) → Payments → Node
  records faults outbound = record (restarted n calls faults) {
    inbound = n.inbound;
    outbound = outbound;
  }

  at_path :
      (name : Str) {bytes : Bytes}
      → Accepted l.config [] [] name
      → stored [] [] name n.process ≡ some bytes
      → content (path name) n.process.world ≡ some bytes
  unfolding namespace_dir
  at_path name {bytes} a saved =
      let dir = n.process.store.data_dir in
      let same =
        dest_file_path-eq dir [] [] name (check-IsKey l.config [] [] name names.plain a)
        ∙ ap (λ d. d ++ name ∷ []) (append-nil (dir ++ []) ∙ append-nil dir) in
      subst (λ p. content p n.process.world ≡ some bytes) same saved

  inbound_there :
      content (path inbound_payments_fname) n.process.world ≡ some (l.encode_inbound n.inbound)
  inbound_there = at_path inbound_payments_fname names.inbound_name d.inbound_saved

  pub read_records-eq :
      read_records l saved n.process.store.data_dir (restarted n calls [])
      ≡ reconcile l recent (records [] n.outbound)
  unfolding read_records ◌>>=◌
  read_records-eq =
      let there = at_path outbound_payments_fname names.outbound_name d.outbound_saved in
      let first =
        read_info-saved saved.read_inbound (path inbound_payments_fname) (restarted n calls [])
          (l.encode_inbound n.inbound) n.inbound refl inbound_there back.inbound_back in
      let second =
        read_info-saved saved.read_outbound (path outbound_payments_fname) (records [] [])
          (l.encode_outbound n.outbound) n.outbound refl there back.outbound_back in
      rw (first, second) refl

  pub read_records-unread :
      (k : ℕ)
      → read_records l saved n.process.store.data_dir (restarted n calls (none ∷ some k ∷ []))
        ≡ reconcile l recent (records [] [])
  unfolding read_records read_info read_payment_info read_file call ◌>>=◌
  read_records-unread k = ground (arith, inbound_there, back.inbound_back)

  reconcile-returns :
      (outbound : Payments) → Unhindered n → (reconcile l recent (records [] outbound)).0 ≡ ok tt
  unfolding reconcile persist_outbound persist Locks.new ◌>>=◌
  reconcile-returns outbound way =
      let bytes = l.encode_outbound (fail_forgotten recent outbound) in
      let written =
        write_completes l.config names.plain [] [] outbound_payments_fname bytes
          (records [] outbound).process names.outbound_name way in
      ground (arith, written.0)

  eq-Reconciled :
      (faults : List (Option ℕ)) (outbound : Payments)
      → Unhindered n
      → read_records l saved n.process.store.data_dir (restarted n calls faults)
        ≡ reconcile l recent (records [] outbound)
      → Reconciled l saved n calls faults outbound
  unfolding reconcile persist_outbound persist Locks.new ◌>>=◌
  eq-Reconciled faults outbound way whole =
      let done = reconcile-returns outbound way in
      (
        ap outcome whole ∙ done,
        ap (λ (r : Outcome IoError (Unit {0}) × Node). r.1.inbound) whole,
        ap (λ (r : Outcome IoError (Unit {0}) × Node). r.1.outbound) whole,
        subst (λ r. IsDurable l r.1) (sym whole)
            (reconcile-IsDurable l names recent (records [] outbound) d.inbound_saved refl done),
      )

  -- The start that can read both files.
  pub IsDurable-Resumed : Unhindered n → Resumed l saved n calls
  IsDurable-Resumed way =
      let (returned, inbound, outbound, durable) =
        eq-Reconciled [] n.outbound way read_records-eq in
      (
        returned,
        inbound,
        λ id. ap (lookup id) outbound ∙ lookup-fail_forgotten recent id n.outbound,
        durable,
      )

  -- Let both files hold the records of a node, no directory or special file lie where the next start
  -- writes, and LDK read back what it encoded. If at the next start the one call that reads the file
  -- of the outbound records fails, the start returns with no outbound record, and that file now
  -- holds none.
  pub outbound_records_lost :
      (k : ℕ)
      → Unhindered n
      → ((read_records l saved n.process.store.data_dir (restarted n calls (none ∷ some k ∷ []))).0
          ≡ ok tt)
        × (outbound_file
              (read_records l saved n.process.store.data_dir
                (restarted n calls (none ∷ some k ∷ []))).1
            ≡ some (l.encode_outbound []))
  unfolding fail_forgotten
  outbound_records_lost k way =
      let (returned, inbound, outbound, durable) =
        eq-Reconciled (none ∷ some k ∷ []) [] way (read_records-unread k) in
      (returned, durable.outbound_saved ∙ ap (λ o. some (l.encode_outbound o)) outbound)
