-- ===== src/BitcoindClient/RpcLaws.antt =====
-- What the answers of bitcoind make of the fee estimates.
use programming_lightning_bu.Base.{
  true, false, ℕ, ◌≡◌, ◌≢◌, ◌≤◌, Bool, Str, str, Option, none, some, List, [], ◌∷◌, Outcome, ok,
  err, panic, arith, ◌>>=◌, option_eq, nat_eq, ◌==◌, if◌then◌else◌, not, take,
}
use programming_lightning_bu.Exec.{IoError}
use programming_lightning_bu.Text.{u32_max}
use programming_lightning_bu.Convert.{
  Floats, JsonValue, fee_response, mempool_min_fee_response, feerate, sat_per_kw, FeeResponse,
}
use programming_lightning_bu.BitcoindClient.{
  round_stores, Fees, ConfirmationTarget, store_all, get_est_sat_per_1000_weight,
}
use programming_lightning_bu.BitcoindClient.Served.{floor_of}
use programming_lightning_bu.BitcoindClient.Bounds.{
  Reached, polled, get_est_bounds, Fit, AnswerFits,
}
use programming_lightning_bu.BitcoindClient.Rpc.{Method, poll}

module _ {V F : Type 0} (floats : Floats F) (json : JsonValue V F) (of_u64 : ℕ → V)
    (of_str : Str → V) where
  feerate-Fits :
      (v : V) → ((x : F) → floats.as_u32 x ≤ u32_max) → AnswerFits (ok (feerate floats json v))
  unfolding feerate sat_per_kw
  feerate-Fits v saturates = go (json.as_f64 v)
    where
      go :
          (o : Option F)
          → AnswerFits
              (ok (elim o [ some rate ↦ some (sat_per_kw floats json rate) | none ↦ none ]))
      go none = tt
      go (some x) = saturates _

  fee_response-Fits :
      (r : Outcome IoError V)
      → ((x : F) → floats.as_u32 x ≤ u32_max)
      → AnswerFits (r >>= λ v. fee_response floats json v >>= λ a. ok a.feerate_sat_per_kw)
  unfolding fee_response
  fee_response-Fits (ok v) saturates = feerate-Fits (json.get (str "feerate") v) saturates
  fee_response-Fits (err e) saturates = tt
  fee_response-Fits panic saturates = tt

  min_fee-Fits :
      (r : Outcome IoError V)
      → ((x : F) → floats.as_u32 x ≤ u32_max)
      → AnswerFits
          (r >>= λ v. mempool_min_fee_response floats json v >>= λ a. ok a.feerate_sat_per_kw)
  unfolding mempool_min_fee_response
  min_fee-Fits (ok v) saturates = go (json.as_u64 (json.get (str "maxmempool") v) == some 300000000)
    where
      fee : Option ℕ
      fee = feerate floats json (json.get (str "mempoolminfee") v)

      go :
          (b : Bool)
          → AnswerFits (
              (if b
                then ok (record {
                  feerate_sat_per_kw = fee;
                  errored = not (json.is_null (json.get (str "errors") v));
                })
                else panic)
              >>= λ (a : FeeResponse). ok a.feerate_sat_per_kw)
      go true = feerate-Fits (json.get (str "mempoolminfee") v) saturates
      go false = tt
  min_fee-Fits (err e) saturates = tt
  min_fee-Fits panic saturates = tt

  -- `as u32` saturates, so every feerate that is read fits.
  pub poll-Fit :
      (call_method : Method V)
      → ((x : F) → floats.as_u32 x ≤ u32_max)
      → Fit (poll floats json of_u64 of_str call_method)
  unfolding poll
  poll-Fit call_method saturates = record {
    mempoolmin = min_fee-Fits (call_method (str "getmempoolinfo") []) saturates;
    background =
        fee_response-Fits
          (call_method (str "estimatesmartfee") (of_u64 144 ∷ of_str (str "ECONOMICAL") ∷ []))
          saturates;
    normal =
        fee_response-Fits
          (call_method (str "estimatesmartfee") (of_u64 18 ∷ of_str (str "ECONOMICAL") ∷ []))
          saturates;
    high_prio =
        fee_response-Fits
          (call_method (str "estimatesmartfee") (of_u64 6 ∷ of_str (str "CONSERVATIVE") ∷ []))
          saturates;
    very_high_prio =
        fee_response-Fits
          (call_method (str "estimatesmartfee") (of_u64 2 ∷ of_str (str "CONSERVATIVE") ∷ []))
          saturates;
  }

  -- Unless bitcoind's limit of the mempool is 300 000 000 bytes, the first round of the task that
  -- polls the estimates panics, whatever the other answers are.
  round_stores-maxmempool :
      (checks : Bool) (call_method : Method V) (v : V)
      → call_method (str "getmempoolinfo") [] ≡ ok v
      → json.as_u64 (json.get (str "maxmempool") v) ≢ some 300000000
      → round_stores checks (poll floats json of_u64 of_str call_method) ≡ panic
  unfolding poll round_stores mempool_min_fee_response
  round_stores-maxmempool checks call_method v e h = ground (arith, e, h)

  -- Whatever bitcoind answers in a round, in every table between two of the round's stores, from any
  -- table that can be met before, each estimate is there, at least its floor and at most 2^32 - 1:
  -- the conversion of the feerates to 32 bits saturates.
  pub poll_bounds :
      (checks : Bool) (call_method : Method V) (fees fees' : Fees)
      (stores : List (ConfirmationTarget × ℕ)) (n : ℕ) (t : ConfirmationTarget)
      → ((x : F) → floats.as_u32 x ≤ u32_max)
      → Reached checks fees
      → round_stores checks (poll floats json of_u64 of_str call_method) ≡ ok stores
      → store_all (take n stores) fees ≡ ok fees'
      → (v : ℕ) × (get_est_sat_per_1000_weight fees' t ≡ ok v) × (floor_of t ≤ v) × (v ≤ u32_max)
  poll_bounds checks call_method fees fees' stores n t saturates reached asked stored =
      get_est_bounds t (
        polled (poll floats json of_u64 of_str call_method) n reached
          (poll-Fit call_method saturates) asked stored)
