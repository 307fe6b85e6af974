-- ===== src/BitcoindClient/Bounds.antt =====
-- Every estimate that a reader can see is in range, whatever bitcoind answers.
use programming_lightning_bu.Base.{
  ℕ, zero, suc, ◌-◌, ◌≤◌, ◌≡◌, Bool, Option, none, some, List, [], ◌∷◌, Outcome, ok, err, panic,
  arith, ◌>>=◌, take, All, subst,
}
use programming_lightning_bu.Base.Dict.{lookup}
use programming_lightning_bu.Exec.{IoError}
use programming_lightning_bu.Text.{u32_max}
use programming_lightning_bu.BitcoindClient.{
  ConfirmationTarget, target_eq, Fees, min_feerate, initial_fees, estimate, Answers, unwrap_answer,
  sub_u32, round_stores, store_all, get_est_sat_per_1000_weight, maximum_fee_estimate,
  urgent_on_chain_sweep, min_allowed_anchor_channel_remote_fee,
  min_allowed_non_anchor_channel_remote_fee, anchor_channel_fee, non_anchor_channel_fee,
  channel_close_minimum, output_spending_fee,
}
use programming_lightning_bu.BitcoindClient.Served.{
  floor_of, InRange, IsServed, initial_fees-IsServed, store_all-IsServed,
}

abbrev pub AnswerFits : Outcome IoError (Option ℕ) → Type 0
AnswerFits (ok (some v)) = v ≤ u32_max
AnswerFits _ = Unit

-- The feerates that bitcoind answers fit into 32 bits.
pub record Fit (a : Answers) : Type 0 where
  pub mempoolmin : AnswerFits a.mempoolmin
  pub background : AnswerFits a.background
  pub normal : AnswerFits a.normal
  pub high_prio : AnswerFits a.high_prio
  pub very_high_prio : AnswerFits a.very_high_prio

abbrev Sound : Outcome IoError (List (ConfirmationTarget × ℕ)) → Type 0
Sound (ok stores) = All InRange stores
Sound (err e) = Unit
Sound panic = Unit

answer_rule :
    (o : Outcome IoError (Option ℕ))
    (f : Option ℕ → Outcome IoError (List (ConfirmationTarget × ℕ)))
    → AnswerFits o
    → ((a : Option ℕ) → AnswerFits (ok a) → Sound (f a))
    → Sound (unwrap_answer o >>= f)
answer_rule (ok a) f h k = k a h
answer_rule (err e) f h k = tt
answer_rule panic f h k = tt

estimate_bounds :
    (missing : ℕ) (a : Option ℕ)
    → min_feerate ≤ missing
    → missing ≤ u32_max
    → AnswerFits (ok a)
    → (min_feerate ≤ estimate missing a) × (estimate missing a ≤ u32_max)
unfolding estimate
estimate_bounds missing none h k f = (h, k)
estimate_bounds missing (some v) h k f = omega arith

sub_250 : (checks : Bool) (a : ℕ) → min_feerate ≤ a → sub_u32 checks a 250 ≡ ok (a - 250)
unfolding sub_u32
sub_250 checks a h = ground arith

round_stores-Sound : (checks : Bool) (a : Answers) → Fit a → Sound (round_stores checks a)
unfolding round_stores
round_stores-Sound checks a f = answer_rule a.mempoolmin _ f.mempoolmin λ m fm.
    answer_rule a.background _ f.background λ b fb. answer_rule a.normal _ f.normal λ n fn.
      answer_rule a.high_prio _ f.high_prio λ h fh.
        answer_rule a.very_high_prio _ f.very_high_prio λ v fv.
          let mb = estimate_bounds min_feerate m (omega arith) (omega arith) fm in
          let bb = estimate_bounds min_feerate b (omega arith) (omega arith) fb in
          let nb = estimate_bounds 2000 n (omega arith) (omega arith) fn in
          let hb = estimate_bounds 5000 h (omega arith) (omega arith) fh in
          let vb = estimate_bounds 50000 v (omega arith) (omega arith) fv in
          rw (sub_250 checks (estimate min_feerate b) bb.0) (omega arith)

All-take :
    (n : ℕ) (stores : List (ConfirmationTarget × ℕ))
    → All InRange stores
    → All InRange (take n stores)
All-take zero stores h = tt
All-take (suc n) [] h = tt
All-take (suc n) (x ∷ stores) h = (h.0, All-take n stores h.1)

-- The tables that a reader can meet: the first one, and those after some stores of a round.
pub data Reached (checks : Bool) : Fees → Type 0 where
  started : Reached checks initial_fees
  polled :
      {fees fees' : Fees} {stores : List (ConfirmationTarget × ℕ)} (a : Answers) (n : ℕ)
      → Reached checks fees
      → Fit a
      → round_stores checks a ≡ ok stores
      → store_all (take n stores) fees ≡ ok fees'
      → Reached checks fees'

Reached-IsServed : {checks : Bool} {fees : Fees} → Reached checks fees → IsServed fees
Reached-IsServed started = initial_fees-IsServed
Reached-IsServed {checks} (polled {fees = fees} {fees' = fees'} {stores = stores} a n r f e e') =
    let sound = rw e at (round_stores-Sound checks a f) in
    let (fees'', k, s, _) =
      store_all-IsServed (take n stores) fees (All-take n stores sound) (Reached-IsServed r) in
    let same : fees'' ≡ fees' = cc (k, e') in subst IsServed same s

-- In every table that a reader can meet, between any two stores of any rounds too, the estimate of
-- each target is there, is at most 2^32 - 1 and at least 253, but for the non-anchor remote minimum,
-- which is at least 3.
pub get_est_bounds :
    {checks : Bool} {fees : Fees} (t : ConfirmationTarget)
    → Reached checks fees
    → (v : ℕ) × (get_est_sat_per_1000_weight fees t ≡ ok v) × (floor_of t ≤ v) × (v ≤ u32_max)
unfolding get_est_sat_per_1000_weight
get_est_bounds t r =
    let (v, e, low, high) = (Reached-IsServed r).at t in (v, ground (arith, e), low, high)

abbrev pub answered : Option ℕ → Option ℕ → Option ℕ → Option ℕ → Option ℕ → Answers
answered m b n h v = record {
  mempoolmin = ok m;
  background = ok b;
  normal = ok n;
  high_prio = ok h;
  very_high_prio = ok v;
}

full_round : Option ℕ → Option ℕ → Option ℕ → Option ℕ → Option ℕ → List (ConfirmationTarget × ℕ)
full_round m b n h v =
    (maximum_fee_estimate, estimate 50000 v)
    ∷ (urgent_on_chain_sweep, estimate 5000 h)
    ∷ (min_allowed_anchor_channel_remote_fee, estimate min_feerate m)
    ∷ (min_allowed_non_anchor_channel_remote_fee, estimate min_feerate b - 250)
    ∷ (anchor_channel_fee, estimate min_feerate b)
    ∷ (non_anchor_channel_fee, estimate 2000 n)
    ∷ (channel_close_minimum, estimate min_feerate b)
    ∷ (output_spending_fee, estimate min_feerate b)
    ∷ []

shown :
    (fees : Fees) (t : ConfirmationTarget) (v : ℕ)
    → lookup t fees ≡ some v
    → get_est_sat_per_1000_weight fees t ≡ ok v
unfolding get_est_sat_per_1000_weight
shown fees t v e = ground (arith, e)

background-ge :
    (m b n h v : Option ℕ) → Fit (answered m b n h v) → min_feerate ≤ estimate min_feerate b
background-ge m b n h v f =
    (estimate_bounds min_feerate b (omega arith) (omega arith) f.background).0

-- A round to which bitcoind answers neither panics nor wraps, with overflow checks or without: it
-- makes its eight stores, from any table that can be met, and the estimates are the answers, at
-- least 253, or the fixed values where an answer has no feerate, less 250 for the non-anchor remote
-- minimum.
pub round_total :
    {checks : Bool} {fees : Fees} (m b n h v : Option ℕ)
    → Reached checks fees
    → Fit (answered m b n h v)
    → (fees' : Fees) × ((round_stores checks (answered m b n h v) >>= λ stores.
          store_all stores fees)
        ≡ ok fees')
      × (get_est_sat_per_1000_weight fees' maximum_fee_estimate ≡ ok (estimate 50000 v))
      × (get_est_sat_per_1000_weight fees' urgent_on_chain_sweep ≡ ok (estimate 5000 h))
      × (get_est_sat_per_1000_weight fees' min_allowed_anchor_channel_remote_fee
          ≡ ok (estimate min_feerate m))
      × (get_est_sat_per_1000_weight fees' min_allowed_non_anchor_channel_remote_fee
          ≡ ok (estimate min_feerate b - 250))
      × (get_est_sat_per_1000_weight fees' anchor_channel_fee ≡ ok (estimate min_feerate b))
      × (get_est_sat_per_1000_weight fees' non_anchor_channel_fee ≡ ok (estimate 2000 n))
      × (get_est_sat_per_1000_weight fees' channel_close_minimum ≡ ok (estimate min_feerate b))
      × (get_est_sat_per_1000_weight fees' output_spending_fee ≡ ok (estimate min_feerate b))
unfolding round_stores target_eq full_round
round_total {checks} {fees} m b n h v r f =
    let answers = answered m b n h v in
    let e = sub_250 checks (estimate min_feerate b) (background-ge m b n h v f) in
    let stores = full_round m b n h v in
    let listed : round_stores checks answers ≡ ok stores = rw (e, full_round) in
    let sound : All InRange stores = rw listed at (round_stores-Sound checks answers f) in
    let (fees', k, _, l) = store_all-IsServed stores fees sound (Reached-IsServed r) in
    (
      fees',
      rw listed k,
      shown fees' maximum_fee_estimate _ (l maximum_fee_estimate),
      shown fees' urgent_on_chain_sweep _ (l urgent_on_chain_sweep),
      shown fees' min_allowed_anchor_channel_remote_fee _ (l min_allowed_anchor_channel_remote_fee),
      shown fees' min_allowed_non_anchor_channel_remote_fee _
          (l min_allowed_non_anchor_channel_remote_fee),
      shown fees' anchor_channel_fee _ (l anchor_channel_fee),
      shown fees' non_anchor_channel_fee _ (l non_anchor_channel_fee),
      shown fees' channel_close_minimum _ (l channel_close_minimum),
      shown fees' output_spending_fee _ (l output_spending_fee),
    )
