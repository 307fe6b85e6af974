-- ===== src/BitcoindClient.antt =====
-- The fee estimates of src/bitcoind_client.rs: the table that `new` makes, one round of
-- `poll_for_fee_estimates`, and `get_est_sat_per_1000_weight`. The answers of bitcoind are
-- arguments; the table's cells are atomic, so a reader may run between any two stores.
pub mod Served
pub mod Rpc
pub mod RpcLaws
pub mod Bounds
use programming_lightning_bu.Base.{
  ℕ, ◌+◌, ◌-◌, ◌%◌, ◌^◌, ◌≡◌, Bool, true, false, Option, none, some, List, [], ◌∷◌, ◌++◌, Eq, ltb,
  max, Outcome, ok, err, panic, ◌>>=◌, unwrap, if◌then◌else◌, take,
}
use programming_lightning_bu.Base.Dict.{Dict, lookup, insert, modify}
use programming_lightning_bu.Exec.{IoError}

pub data ConfirmationTarget : Type 0 where
  maximum_fee_estimate urgent_on_chain_sweep min_allowed_anchor_channel_remote_fee
        min_allowed_non_anchor_channel_remote_fee anchor_channel_fee non_anchor_channel_fee
        channel_close_minimum output_spending_fee :
      ConfirmationTarget

target_dec : Discrete ConfirmationTarget
target_dec = hlevel

instance unfoldable pub target_eq : Eq ConfirmationTarget
unfolding target_dec
target_eq = record { dec = target_dec }

abbrev pub min_feerate : ℕ
min_feerate = 253

abbrev pub Fees : Type 0
Fees = Dict ConfirmationTarget ℕ

-- The table of `BitcoindClient::new`
unfoldable pub initial_fees : Fees
initial_fees = insert output_spending_fee min_feerate (
    insert channel_close_minimum min_feerate (
      insert non_anchor_channel_fee 2000 (
        insert anchor_channel_fee min_feerate (
          insert min_allowed_non_anchor_channel_remote_fee min_feerate (
            insert min_allowed_anchor_channel_remote_fee min_feerate
              (insert urgent_on_chain_sweep 5000 (insert maximum_fee_estimate 50000 [])))))))

-- The feerate of an answer, or the value used without one.
unfoldable pub estimate : ℕ → Option ℕ → ℕ
estimate missing (some feerate) = max feerate min_feerate
estimate missing none = missing

-- What bitcoind answers in one round, `feerate_sat_per_kw` of each response; an error panics.
pub record Answers : Type 0 where
  pub mempoolmin : Outcome IoError (Option ℕ)
  pub background : Outcome IoError (Option ℕ)
  pub normal : Outcome IoError (Option ℕ)
  pub high_prio : Outcome IoError (Option ℕ)
  pub very_high_prio : Outcome IoError (Option ℕ)

abbrev pub unwrap_answer : Outcome IoError (Option ℕ) → Outcome IoError (Option ℕ)
unwrap_answer (ok a) = ok a
unwrap_answer (err e) = panic
unwrap_answer panic = panic

-- `a - b` on u32: with overflow checks it panics, and without it wraps.
unfoldable pub sub_u32 : Bool → ℕ → ℕ → Outcome IoError ℕ
sub_u32 checks a b =
    if ltb a b then (if checks then panic else ok ((a + 2 ^ 32 - b) % 2 ^ 32)) else ok (a - b)

-- The stores of one round, in order.
unfoldable pub round_stores : Bool → Answers → Outcome IoError (List (ConfirmationTarget × ℕ))
unfolding estimate sub_u32
round_stores checks a = do
  mempoolmin ← unwrap_answer a.mempoolmin
  background ← unwrap_answer a.background
  normal ← unwrap_answer a.normal
  high_prio ← unwrap_answer a.high_prio
  very_high_prio ← unwrap_answer a.very_high_prio
  let background_estimate = estimate min_feerate background
  non_anchor ← sub_u32 checks background_estimate 250
  ok (
      (maximum_fee_estimate, estimate 50000 very_high_prio)
      ∷ (urgent_on_chain_sweep, estimate 5000 high_prio)
      ∷ (min_allowed_anchor_channel_remote_fee, estimate min_feerate mempoolmin)
      ∷ (min_allowed_non_anchor_channel_remote_fee, non_anchor)
      ∷ (anchor_channel_fee, background_estimate)
      ∷ (non_anchor_channel_fee, estimate 2000 normal)
      ∷ (channel_close_minimum, background_estimate)
      ∷ (output_spending_fee, background_estimate)
      ∷ [])

-- `fees.get(&target).unwrap().store(value)`
unfoldable pub store : ConfirmationTarget → ℕ → Fees → Outcome IoError Fees
store target value fees = elim (lookup target fees) [
  | some old ↦ ok (modify target (λ _. value) fees)
  | none ↦ panic
]

unfoldable pub store_all : List (ConfirmationTarget × ℕ) → Fees → Outcome IoError Fees
unfolding store
store_all [] fees = ok fees
store_all ((target, value) ∷ stores) fees = store target value fees >>= store_all stores

-- `self.fees.get(&confirmation_target).unwrap().load(..)`
unfoldable pub get_est_sat_per_1000_weight : Fees → ConfirmationTarget → Outcome IoError ℕ
get_est_sat_per_1000_weight fees target = unwrap (lookup target fees)
