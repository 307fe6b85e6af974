-- ===== src/Tests/Payment.antt =====
-- Runs of the fee estimates, of the event handler and of the commands that pay.
use programming_lightning_bu.Base.{
  ◌-◌, ◌≡◌, refl, true, none, some, [], ◌∷◌, arith, ok, if◌then◌else◌, ◌==◌, list_eq, nat_eq, ◌>>=◌,
}
use programming_lightning_bu.Base.Dict.{lookup}
use programming_lightning_bu.Payments.{claim, succeeded, Bytes, Payments, mark_sent, fail_forgotten}
use programming_lightning_bu.Payments.Laws.{
  mark_sent_lem, lookup-claim, amount_of, lookup-fail_forgotten, map_info, sent, after_restart,
}
use programming_lightning_bu.BitcoindClient.{
  estimate, min_feerate, initial_fees, round_stores, store_all, get_est_sat_per_1000_weight,
  maximum_fee_estimate, urgent_on_chain_sweep, min_allowed_anchor_channel_remote_fee,
  min_allowed_non_anchor_channel_remote_fee, anchor_channel_fee, non_anchor_channel_fee,
  channel_close_minimum, output_spending_fee, Fees,
}
use programming_lightning_bu.BitcoindClient.Bounds.{started, Fit, answered, round_total}
use programming_lightning_bu.Node.Durable.{IsDurable, TakesNames}
use programming_lightning_bu.Events.{Context, payment_failed, handle_ldk_events}
use programming_lightning_bu.Events.Crash.{handle_ldk_events-IsRecoverable, IsRecoverable}
use programming_lightning_bu.FilePath.{push, components, normals, is_named, leading_dot}
use programming_lightning_bu.Text.{split, cons_head}
use programming_lightning_bu.Node.{Node}
use programming_lightning_bu.FilesystemStore.{
  get_dest_dir_path, check_namespace_key_validity, dest_file_path, is_valid_kvstore_str,
}
use programming_lightning_bu.Tests.{ldk, node, config-IsPlain, world}

abbrev pub four : Bytes
four = 4 ∷ []

abbrev five : Bytes
five = 5 ∷ []

mark_sent_example :
    (out : Payments) × (mark_sent (some four) (6 ∷ []) node.outbound ≡ ok out)
    × (lookup four out ≡ (
        if four == four
        then map_info (sent (6 ∷ [])) (lookup four node.outbound)
        else lookup four node.outbound))
mark_sent_example = mark_sent_lem four four (6 ∷ []) node.outbound

lookup-fail_forgotten_example :
    lookup four (fail_forgotten [] node.outbound)
    ≡ map_info (after_restart [] four) (lookup four node.outbound)
lookup-fail_forgotten_example = lookup-fail_forgotten [] four node.outbound

fits : Fit (answered (some 300) (some 100) none (some 7000) none)
fits = record {
  mempoolmin = omega arith;
  background = omega arith;
  normal = tt;
  high_prio = omega arith;
  very_high_prio = tt;
}

round_total_example :
    (fees' : Fees) × ((round_stores true (answered (some 300) (some 100) none (some 7000) none)
        >>= λ stores. store_all stores initial_fees)
      ≡ ok fees')
    × (get_est_sat_per_1000_weight fees' maximum_fee_estimate ≡ ok (estimate 50000 none))
    × (get_est_sat_per_1000_weight fees' urgent_on_chain_sweep ≡ ok (estimate 5000 (some 7000)))
    × (get_est_sat_per_1000_weight fees' min_allowed_anchor_channel_remote_fee
        ≡ ok (estimate min_feerate (some 300)))
    × (get_est_sat_per_1000_weight fees' min_allowed_non_anchor_channel_remote_fee
        ≡ ok (estimate min_feerate (some 100) - 250))
    × (get_est_sat_per_1000_weight fees' anchor_channel_fee ≡ ok (estimate min_feerate (some 100)))
    × (get_est_sat_per_1000_weight fees' non_anchor_channel_fee ≡ ok (estimate 2000 none))
    × (get_est_sat_per_1000_weight fees' channel_close_minimum
        ≡ ok (estimate min_feerate (some 100)))
    × (get_est_sat_per_1000_weight fees' output_spending_fee ≡ ok (estimate min_feerate (some 100)))
round_total_example =
    round_total {checks = true} {fees = initial_fees} (some 300) (some 100) none (some 7000) none
      started fits

-- What the handler is given: no random bytes are used by the event below.
abbrev pub context : Context
context = record {
  fees = initial_fees;
  height = 100;
  random = [];
  from_height = λ h. some h;
  build = λ script amount rate time. some script;
}

pub names : TakesNames ldk
unfolding check_namespace_key_validity is_valid_kvstore_str nat_eq
names = record { plain = config-IsPlain; inbound_name = refl; outbound_name = refl }

pub saved : IsDurable ldk node
unfolding dest_file_path get_dest_dir_path push normals is_named components leading_dot split
    cons_head lookup nat_eq list_eq
saved = record { inbound_saved = refl; outbound_saved = refl; same_dir = refl }

-- The first call of the file system will fail.
abbrev failing : Node
failing = record node {
  process = record node.process { world = record world { faults = some 0 ∷ [] } };
}

saved_failing : IsDurable ldk failing
unfolding dest_file_path get_dest_dir_path push normals is_named components leading_dot split
    cons_head lookup nat_eq list_eq
saved_failing = record { inbound_saved = refl; outbound_saved = refl; same_dir = refl }

handle_ldk_events_example :
    IsRecoverable ldk failing (handle_ldk_events ldk context (payment_failed none four) failing).1
    × ((handle_ldk_events ldk context (payment_failed none four) failing).0 ≡ ok tt
        → IsDurable ldk (handle_ldk_events ldk context (payment_failed none four) failing).1)
handle_ldk_events_example =
    handle_ldk_events-IsRecoverable ldk names context (payment_failed none four) failing
      saved_failing

lookup-claim_example : lookup four (claim four (some five) none 7 node.outbound) ≡ (
    if four == four
    then some (record {
      preimage = some five;
      secret = none;
      status = succeeded;
      amt_msat = amount_of (lookup four node.outbound) 7;
    })
    else lookup four node.outbound)
lookup-claim_example = lookup-claim four four (some five) none 7 node.outbound
