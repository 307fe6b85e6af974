-- ===== src/Node.antt =====
-- The running node as its command line and its event handler share it: the payment records behind
-- their mutexes, the store on disk, and the calls made to LDK and to the wallet so far. What LDK
-- answers to a call is a function of the calls before it and of the call. What the program prints
-- is left out. `start_ldk` makes two stores over one directory: `fs_store` for the event handler and
-- `persister` for the command line.
pub mod Durable
use programming_lightning_bu.Base.{
  ℕ, ◌≡◌, Str, str, Bool, true, false, Option, none, some, List, [], ◌∷◌, ◌++◌, Outcome, ok, err,
  panic, if◌then◌else◌,
}
use programming_lightning_bu.Exec.{IoError, Exec, ◌>>=◌, ◌>>◌, pure}
use programming_lightning_bu.FilesystemStore.{Config, FilesystemStore, Process, write}
use programming_lightning_bu.Payments.{Bytes, Payments}

-- Whom LDK tells of blocks.
pub data Listener : Type 0 where
  channel_manager output_sweeper : Listener
  channel_monitor : Bytes → Listener

-- A call that the program makes of code outside the repository.
pub data Call : Type 0 where
  claim_funds : Bytes → Call
  accept_inbound_channel : Bytes → Bytes → ℕ → Call
  create_funding_transaction : Bytes → ℕ → ℕ → Call
  funding_transaction_generated : Bytes → Bytes → Bytes → Call
  track_spendable_outputs : List Bytes → Option Bytes → Option ℕ → Call
  bump_transaction : Bytes → Call
  connect_outbound : Bytes → Bytes → Call
  disconnect_by_node_id : Bytes → Call
  create_channel : Bytes → ℕ → Bool → Bool → Call
  close_channel force_close_channel : Bytes → Bytes → Call
  send_payment : Bytes → Bytes → Call
  pay_for_offer : Bytes → ℕ → Bytes → Call
  send_spontaneous_payment : Bytes → Bytes → ℕ → Call
  create_invoice : ℕ → ℕ → Call
  get_address : Call
  disconnect_all_peers : Call
  broadcast_node_announcement : Bytes → List Bytes → Call
  synchronize_listeners : List (Bytes × Listener) → Call
  watch_channel : Bytes → Call

-- LDK, and the encodings that its macro `impl_writeable_tlv_based` derives for the two storages.
pub record Ldk : Type 0 where
  pub config : Config
  pub encode_inbound : Payments → Bytes
  pub encode_outbound : Payments → Bytes
  -- Whether a call that can fail succeeds.
  pub accepts : List Call → Call → Bool
  -- `list_peers` and the counterparties of `list_channels`, by public key.
  pub peers : List Call → List Bytes
  pub channel_peers : List Call → List Bytes
  -- `connect_outbound`: whether there is a connection, and at each poll until it is closed whether
  -- the peer is known by then.
  pub connection : List Call → Bytes → Bytes → Option (List Bool)

-- Who calls the store.
pub data Owner : Type 0 where
  handler command_line : Owner

-- `process` is the handler's store and the world that both stores act on.
pub record Node : Type 0 where
  pub process : Process
  pub persister : FilesystemStore
  pub inbound : Payments
  pub outbound : Payments
  pub calls : List Call

abbrev pub inbound_payments_fname : Str
inbound_payments_fname = str "inbound_payments"

abbrev pub outbound_payments_fname : Str
outbound_payments_fname = str "outbound_payments"

-- A call whose result is not looked at.
unfoldable pub tell : Call → Exec Node (Unit {0})
tell c n = (ok tt, record n { calls = n.calls ++ c ∷ [] })

abbrev pub set_inbound : Payments → Exec Node (Unit {0})
set_inbound d n = (ok tt, record n { inbound = d })

abbrev pub set_outbound : Payments → Exec Node (Unit {0})
set_outbound d n = (ok tt, record n { outbound = d })

abbrev pub process_of : Owner → Node → Process
process_of handler n = n.process
process_of command_line n = record { store = n.persister; world = n.process.world }

abbrev pub with_process : Owner → Process → Node → Node
with_process handler p n = record n { process = p }
with_process command_line p n = record n {
  process = record n.process { world = p.world };
  persister = p.store;
}

abbrev unwrapped : Outcome IoError (Unit {0}) → Outcome IoError (Unit {0})
unwrapped (ok x) = ok x
unwrapped (err e) = panic
unwrapped panic = panic

module _ (l : Ldk) where
  unfoldable pub ask : Call → Exec Node Bool
  ask c n = (ok (l.accepts n.calls c), record n { calls = n.calls ++ c ∷ [] })

  -- `write("", "", name, bytes).unwrap()` on the store of an owner.
  unfoldable pub persist : Owner → Str → Bytes → Exec Node (Unit {0})
  persist o name bytes n =
      let (r, p) = write l.config [] [] name bytes (process_of o n) in
      (unwrapped r, with_process o p n)

  unfoldable pub persist_inbound : Owner → Exec Node (Unit {0})
  unfolding persist
  persist_inbound o n = persist o inbound_payments_fname (l.encode_inbound n.inbound) n

  unfoldable pub persist_outbound : Owner → Exec Node (Unit {0})
  unfolding persist
  persist_outbound o n = persist o outbound_payments_fname (l.encode_outbound n.outbound) n
