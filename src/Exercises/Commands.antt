-- ===== src/Exercises/Commands.antt =====
-- `open_channel` and `send_ln_payment` of src/commands.rs, the handler of src/events.rs, and the
-- channel manager of src/internal/channel_manager.rs, which accepts everything and remembers the
-- last call of each kind.
use programming_lightning_bu.Base.{
  ℕ, Str, str, Bool, true, false, Option, none, some, [], replicate, ok, unwrap, list_eq, nat_eq,
}
use programming_lightning_bu.Base.Dict.{lookup, insert, modify}
use programming_lightning_bu.Exec.{Exec, pure, lift, ◌>>=◌, ◌>>◌}
use programming_lightning_bu.FileStore.{FileStore, write}
use programming_lightning_bu.Payments.{Bytes, Payments, pending, failed, set_status}
use programming_lightning_bu.Cli.Pay.{Invoice}

-- The fields of `UserConfig` that the code sets; all others have LDK's defaults.
pub record UserConfig : Type 0 where
  pub announce_for_forwarding : Bool
  pub their_channel_reserve_proportional_millionths : ℕ
  pub negotiate_anchors_zero_fee_htlc_tx : Bool

pub record ChannelManager : Type 0 where
  pub funding_tx : Option (Bytes × Bytes × Bytes)
  pub channel : Option (ℕ × ℕ × UserConfig)
  pub payment : Option Bytes

-- `ChannelManager::new`
abbrev pub new_channel_manager : ChannelManager
new_channel_manager = record { funding_tx = none; channel = none; payment = none }

abbrev pub best_height : ℕ
best_height = 300

unfoldable pub funding_transaction_generated :
    Bytes → Bytes → Bytes → Exec ChannelManager (Unit {0})
funding_transaction_generated temporary_channel_id counterparty_node_id funding_transaction m = (
  ok tt,
  record m { funding_tx = some (temporary_channel_id, counterparty_node_id, funding_transaction) },
)

-- `unwrap_or_default` of the given configuration; the id is 32 zeros.
unfoldable pub create_channel : ℕ → ℕ → UserConfig → Exec ChannelManager Bytes
create_channel channel_value_satoshis user_channel_id override_config m = (
  ok (replicate 32 0),
  record m { channel = some (user_channel_id, channel_value_satoshis, override_config) },
)

unfoldable pub send_payment : Bytes → Exec ChannelManager (Unit {0})
send_payment payment_id m = (ok tt, record m { payment = some payment_id })

unfoldable pub open_channel : ℕ → Bool → Bool → Exec ChannelManager (Unit {0})
unfolding create_channel ◌>>=◌
open_channel channel_amt_sat announce_channel with_anchors =
    create_channel channel_amt_sat 0 (record {
      announce_for_forwarding = announce_channel;
      their_channel_reserve_proportional_millionths = 1000;
      negotiate_anchors_zero_fee_htlc_tx = with_anchors;
    })
    >> pure tt

-- The arm of `FundingGenerationReady`; `from_height` is of the crate bitcoin, and `create` of the
-- wallet.
unfoldable pub on_funding_generation_ready :
    (ℕ → Option ℕ)
    → (Bytes → ℕ → ℕ → Bytes)
    → Bytes
    → Bytes
    → ℕ
    → Bytes
    → Exec ChannelManager (Unit {0})
unfolding funding_transaction_generated ◌>>=◌
on_funding_generation_ready from_height create temporary_channel_id counterparty value script = do
  locktime ← lift (unwrap (from_height best_height))
  funding_transaction_generated temporary_channel_id counterparty (create script value locktime)

pub record Sketch : Type 0 where
  pub manager : ChannelManager
  pub outbound_payments : Payments
  pub fs_store : FileStore

abbrev pub outbound_payments_fname : Str
outbound_payments_fname = str "outbound_payments"

-- `OutboundPaymentInfoStorage::encode`
abbrev pub encode : Payments → Bytes
encode d = replicate 32 1

unfoldable pub save : Exec Sketch (Unit {0})
unfolding write
save s =
    let (r, store) = write [] [] outbound_payments_fname (encode s.outbound_payments) s.fs_store in
    (r, record s { fs_store = store })

-- Whether the channel manager accepts.
unfoldable pub ask_manager : Bytes → Exec Sketch Bool
unfolding send_payment
ask_manager payment_id s =
    let (r, m) = send_payment payment_id s.manager in
    (ok (elim r [ ok x ↦ true | _ ↦ false ]), record s { manager = m })

abbrev pub set_payments : Payments → Exec Sketch (Unit {0})
set_payments d s = (ok tt, record s { outbound_payments = d })

unfoldable pub mark_and_save : Bytes → Exec Sketch (Unit {0})
unfolding save ◌>>=◌
mark_and_save payment_id s =
    (do
      lift (unwrap (lookup payment_id s.outbound_payments))
      set_payments (modify payment_id (set_status failed) s.outbound_payments)
      save)
      s

-- `pay_params` is LDK's `payment_parameters_from_invoice`.
unfoldable pub send_ln_payment : (Invoice → Option Bytes) → Invoice → Exec Sketch (Unit {0})
unfolding save ask_manager mark_and_save ◌>>=◌
send_ln_payment pay_params invoice s =
    (do
      lift (unwrap (pay_params invoice))
      set_payments (
          insert invoice.payment_hash
            (record {
              preimage = none;
              secret = some invoice.payment_secret;
              status = pending;
              amt_msat = invoice.amount_milli_satoshis;
            })
            s.outbound_payments)
      save
      sent ← ask_manager invoice.payment_hash
      elim sent [
        | true ↦ lift (unwrap invoice.amount_milli_satoshis) >> pure tt
        | false ↦ mark_and_save invoice.payment_hash
      ])
      s
