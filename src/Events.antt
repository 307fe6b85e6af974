-- ===== src/Events.antt =====
-- `handle_ldk_events` of src/main.rs, one function for each event that changes something. Events
-- whose arm is empty or prints only are `ignored`.
pub mod Durability
pub mod Crash
pub mod Forwarded
use programming_lightning_bu.Base.{
  ℕ, zero, suc, ◌+◌, ◌*◌, ◌%◌, ◌^◌, Str, Bool, true, false, not, Option, none, some, List, [], ◌∷◌,
  ◌++◌, ltb, take, Outcome, ok, err, panic, if◌then◌else◌, unwrap, ◌&&◌,
}
use programming_lightning_bu.Exec.{IoError, Exec, ◌>>=◌, ◌>>◌, pure, lift}
use programming_lightning_bu.BitcoindClient.{Fees, ConfirmationTarget, anchor_channel_fee}
use programming_lightning_bu.Wallet.{create_funding_transaction}
use programming_lightning_bu.Peers.{connect_addresses}
use programming_lightning_bu.Text.{u64_max}
use programming_lightning_bu.Payments.{
  Bytes, Payments, claim, mark_sent, mark_failed, fail_forgotten,
}
use programming_lightning_bu.Node.{
  Ldk, Node, Call, claim_funds, accept_inbound_channel, funding_transaction_generated,
  track_spendable_outputs, bump_transaction, tell, ask, set_inbound, set_outbound, persist_inbound,
  persist_outbound, handler,
}

pub data PaymentPurpose : Type 0 where
  bolt11_invoice_payment bolt12_offer_payment bolt12_refund_payment :
      Option Bytes → Bytes → PaymentPurpose
  spontaneous_payment : Bytes → PaymentPurpose

pub data Event : Type 0 where
  funding_generation_ready : Bytes → Bytes → ℕ → Bytes → Event
  payment_claimable : Bytes → PaymentPurpose → ℕ → Event
  payment_claimed : Bytes → PaymentPurpose → ℕ → Event
  payment_sent : Bytes → Bytes → Option Bytes → Event
  open_channel_request : Bytes → Bytes → Event
  payment_failed : Option Bytes → Bytes → Event
  spendable_outputs : List Bytes → Option Bytes → Event
  bump_transaction_event : Bytes → Event
  connection_needed : Bytes → List (Option (List Bytes)) → Event
  ignored : Event

abbrev pub preimage_of : PaymentPurpose → Option Bytes
preimage_of (bolt11_invoice_payment preimage secret) = preimage
preimage_of (bolt12_offer_payment preimage secret) = preimage
preimage_of (bolt12_refund_payment preimage secret) = preimage
preimage_of (spontaneous_payment preimage) = some preimage

abbrev pub secret_of : PaymentPurpose → Option Bytes
secret_of (bolt11_invoice_payment preimage secret) = some secret
secret_of (bolt12_offer_payment preimage secret) = some secret
secret_of (bolt12_refund_payment preimage secret) = some secret
secret_of (spontaneous_payment preimage) = none

-- What the handler is given besides: the fee table, the height of the best block, the random bytes
-- of this event, and of the crates `LockTime::from_height` and the wallet's transaction builder.
pub record Context : Type 0 where
  pub fees : Fees
  pub height : ℕ
  pub random : Bytes
  pub from_height : ℕ → Option ℕ
  pub build : Bytes → ℕ → ℕ → ℕ → Option Bytes

-- `u128::from_be_bytes`
abbrev pub from_be_bytes : ℕ → Bytes → ℕ
from_be_bytes n [] = n
from_be_bytes n (b ∷ bytes) = from_be_bytes (n * 256 + b) bytes

abbrev locktime_or_zero : Option ℕ → ℕ
locktime_or_zero none = 0
locktime_or_zero (some t) = t

module _ (l : Ldk) where
  unfoldable pub on_funding_generation_ready :
      Context → Bytes → Bytes → ℕ → Bytes → Exec Node (Unit {0})
  unfolding create_funding_transaction ask ◌>>=◌
  on_funding_generation_ready c temporary_channel_id counterparty value script = do
    let locktime = locktime_or_zero (c.from_height c.height)
    final_tx ←
        lift (create_funding_transaction c.build c.fees script value anchor_channel_fee locktime)
    ask l (funding_transaction_generated temporary_channel_id counterparty final_tx)
    pure tt

  unfoldable pub on_payment_claimable : PaymentPurpose → Exec Node (Unit {0})
  unfolding tell ◌>>=◌
  on_payment_claimable purpose = do
    preimage ← lift (unwrap (preimage_of purpose))
    tell (claim_funds preimage)

  unfoldable pub on_payment_claimed : Bytes → PaymentPurpose → ℕ → Exec Node (Unit {0})
  unfolding ◌>>=◌
  on_payment_claimed hash purpose amount_msat n =
      (do
        set_inbound (claim hash (preimage_of purpose) (secret_of purpose) amount_msat n.inbound)
        persist_inbound l handler)
        n

  unfoldable pub on_payment_sent : Bytes → Option Bytes → Exec Node (Unit {0})
  unfolding ◌>>=◌
  on_payment_sent preimage payment_id n =
      (do
        outbound ← lift (mark_sent payment_id preimage n.outbound)
        set_outbound outbound
        persist_outbound l handler)
        n

  unfoldable pub on_open_channel_request : Context → Bytes → Bytes → Exec Node (Unit {0})
  unfolding ask ◌>>=◌
  on_open_channel_request c temporary_channel_id counterparty = do
    let user_channel_id = from_be_bytes 0 (take 16 c.random)
    ask l (accept_inbound_channel temporary_channel_id counterparty user_channel_id)
    pure tt

  unfoldable pub on_payment_failed : Bytes → Exec Node (Unit {0})
  unfolding ◌>>=◌
  on_payment_failed payment_id n =
      (do set_outbound (mark_failed payment_id n.outbound); persist_outbound l handler) n

  -- `track_spendable_outputs(..).unwrap()`
  unfoldable pub on_spendable_outputs : List Bytes → Option Bytes → Exec Node (Unit {0})
  unfolding ask ◌>>=◌
  on_spendable_outputs outputs channel_id = do
    tracked ← ask l (track_spendable_outputs outputs channel_id none)
    lift (if tracked then ok tt else panic)

  unfoldable pub handle_ldk_events : Context → Event → Exec Node (Unit {0})
  handle_ldk_events c (funding_generation_ready id counterparty value script) =
      on_funding_generation_ready c id counterparty value script
  handle_ldk_events c (payment_claimable hash purpose amount) = on_payment_claimable purpose
  handle_ldk_events c (payment_claimed hash purpose amount) = on_payment_claimed hash purpose amount
  handle_ldk_events c (payment_sent preimage hash payment_id) = on_payment_sent preimage payment_id
  handle_ldk_events c (open_channel_request id counterparty) =
      on_open_channel_request c id counterparty
  handle_ldk_events c (payment_failed hash payment_id) = on_payment_failed payment_id
  handle_ldk_events c (spendable_outputs outputs channel_id) =
      on_spendable_outputs outputs channel_id
  handle_ldk_events c (bump_transaction_event event) = tell (bump_transaction event)
  handle_ldk_events c (connection_needed node_id addresses) = connect_addresses l node_id addresses
  handle_ldk_events c ignored = pure tt

  -- The part of `start_ldk` between reading the records and the event handler.
  unfoldable pub reconcile : List Bytes → Exec Node (Unit {0})
  unfolding ◌>>=◌
  reconcile recent n =
      (do set_outbound (fail_forgotten recent n.outbound); persist_outbound l handler) n

-- The sleep of `PendingHTLCsForwardable`, in milliseconds: `min * 5` is checked or wraps, and
-- `gen_range` of the crate rand panics unless its first bound is below its second.
unfoldable pub forward_delay : (ℕ → ℕ → ℕ) → Bool → ℕ → Outcome IoError ℕ
forward_delay gen_range checks time_forwardable =
    let low = time_forwardable % 2 ^ 64 in
    if checks && ltb u64_max (low * 5)
    then panic
    else if ltb low (low * 5 % 2 ^ 64)
    then ok (gen_range low (low * 5 % 2 ^ 64))
    else panic
