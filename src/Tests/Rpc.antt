-- ===== src/Tests/Rpc.antt =====
-- Runs on answers of bitcoind, as a small type of JSON values.
use programming_lightning_bu.Base.{
  ℕ, ◌*◌, ◌/◌, ◌≡◌, ◌≤◌, refl, Str, str, Bool, true, false, Option, none, some, List, [], ◌∷◌, ltb,
  take, ok, arith, if◌then◌else◌, ◌==◌, list_eq, nat_eq, option_eq,
}
use programming_lightning_bu.Base.Dict.{lookup, insert, modify}
use programming_lightning_bu.Text.{u32_max}
use programming_lightning_bu.Convert.{
  Floats, JsonValue, mempool_min_fee_response, fee_response, feerate, sat_per_kw,
}
use programming_lightning_bu.BitcoindClient.{
  ConfirmationTarget, initial_fees, round_stores, store_all, store, target_eq, estimate, sub_u32,
  maximum_fee_estimate, urgent_on_chain_sweep, min_allowed_anchor_channel_remote_fee,
  min_allowed_non_anchor_channel_remote_fee, anchor_channel_fee, non_anchor_channel_fee,
  channel_close_minimum, output_spending_fee, get_est_sat_per_1000_weight,
}
use programming_lightning_bu.BitcoindClient.Served.{floor_of}
use programming_lightning_bu.BitcoindClient.Bounds.{started}
use programming_lightning_bu.BitcoindClient.Rpc.{Method, poll}
use programming_lightning_bu.BitcoindClient.RpcLaws.{poll_bounds}

-- Objects and arrays are chains that end in `null`.
data Value : Type 0 where
  null : Value
  number : ℕ → Value
  text : Str → Value
  field : Str → Value → Value → Value
  item : Value → Value → Value

get : Str → Value → Value
get key (field k v rest) = let others = get key rest in if k == key then v else others
get key _ = null

as_array : Value → Option (List Value)
as_array null = some []
as_array (item v rest) = elim (as_array rest) [ some vs ↦ some (v ∷ vs) | none ↦ none ]
as_array _ = none

abbrev as_number : Value → Option ℕ
as_number (number n) = some n
as_number _ = none

abbrev as_text : Value → Option Str
as_text (text s) = some s
as_text _ = none

abbrev is_null : Value → Bool
is_null null = true
is_null _ = false

abbrev json : JsonValue Value ℕ
json = record {
  get = get;
  is_null = is_null;
  as_u64 = as_number;
  as_i64 = λ v. none;
  as_f64 = as_number;
  as_bool = λ v. none;
  as_str = as_text;
  as_array = as_array;
}

-- Whole numbers of BTC.
abbrev floats : Floats ℕ
floats = record {
  literal = λ n. n;
  mul = λ a b. a * b;
  div = λ a b. a / b;
  round = λ a. a;
  as_u32 = λ a. if ltb u32_max a then u32_max else a;
  from_btc = λ a. some (a * 100000000);
}

saturates : (x : ℕ) → floats.as_u32 x ≤ u32_max
saturates x = ground arith

abbrev ids : Value
ids = item (text (str "a")) (item (text (str "b")) null)

-- bitcoind with a limit of the mempool, and without estimates.
abbrev bitcoind : ℕ → Method Value
bitcoind maxmempool method arguments =
    if method == str "getmempoolinfo"
    then ok (field (str "maxmempool") (number maxmempool) null)
    else ok null

abbrev stores : List (ConfirmationTarget × ℕ)
stores =
    (maximum_fee_estimate, 50000)
    ∷ (urgent_on_chain_sweep, 5000)
    ∷ (min_allowed_anchor_channel_remote_fee, 253)
    ∷ (min_allowed_non_anchor_channel_remote_fee, 3)
    ∷ (anchor_channel_fee, 253)
    ∷ (non_anchor_channel_fee, 2000)
    ∷ (channel_close_minimum, 253)
    ∷ (output_spending_fee, 253)
    ∷ []

polled_stores : round_stores true (poll floats json number text (bitcoind 300000000)) ≡ ok stores
unfolding round_stores poll mempool_min_fee_response fee_response feerate sat_per_kw get estimate
    sub_u32 list_eq nat_eq option_eq
polled_stores = refl

two_stored : store_all (take 2 stores) initial_fees ≡ ok initial_fees
unfolding store_all store initial_fees lookup insert modify target_eq
two_stored = refl

poll_bounds_example :
    (v : ℕ) × (get_est_sat_per_1000_weight initial_fees urgent_on_chain_sweep ≡ ok v)
    × (floor_of urgent_on_chain_sweep ≤ v)
    × (v ≤ u32_max)
poll_bounds_example =
    poll_bounds floats json number text true (bitcoind 300000000) initial_fees initial_fees stores 2
      urgent_on_chain_sweep saturates started polled_stores two_stored
