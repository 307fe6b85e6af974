-- ===== src/BitcoindClient/Rpc.antt =====
-- The calls of bitcoind in src/bitcoind_client.rs. `call_method` of lightning-block-sync is a
-- parameter, from the method and its arguments to the answer before its conversion, and so are
-- `serde_json::json!` of numbers and texts.
use programming_lightning_bu.Base.{
  ℕ, Str, str, Option, List, [], ◌∷◌, map, Outcome, ok, err, panic, ◌>>=◌,
}
use programming_lightning_bu.Exec.{IoError}
use programming_lightning_bu.Payments.{Bytes}
use programming_lightning_bu.Convert.{
  Floats, JsonValue, BlockchainInfo, fee_response, mempool_min_fee_response, blockchain_info,
  mempool_info,
}
use programming_lightning_bu.BitcoindClient.{Answers}

abbrev pub Method : Type 0 → Type 0
Method V = Str → List V → Outcome IoError V

abbrev unwrap_result : {A : Type 0} → Outcome IoError A → Outcome IoError A
unwrap_result (ok a) = ok a
unwrap_result (err e) = panic
unwrap_result panic = panic

module _ {V F : Type 0} (floats : Floats F) (json : JsonValue V F) (of_u64 : ℕ → V)
    (of_str : Str → V) where
  -- `estimatesmartfee` for a number of blocks, in a mode.
  abbrev pub estimate_smart_fee : Method V → ℕ → Str → Outcome IoError (Option ℕ)
  estimate_smart_fee call_method conf_target mode = do
    v ← call_method (str "estimatesmartfee") (of_u64 conf_target ∷ of_str mode ∷ [])
    resp ← fee_response floats json v
    ok resp.feerate_sat_per_kw

  abbrev pub mempool_min_fee : Method V → Outcome IoError (Option ℕ)
  mempool_min_fee call_method = do
    v ← call_method (str "getmempoolinfo") []
    resp ← mempool_min_fee_response floats json v
    ok resp.feerate_sat_per_kw

  -- What one round of `poll_for_fee_estimates` asks for.
  unfoldable pub poll : Method V → Answers
  poll call_method = record {
    mempoolmin = mempool_min_fee call_method;
    background = estimate_smart_fee call_method 144 (str "ECONOMICAL");
    normal = estimate_smart_fee call_method 18 (str "ECONOMICAL");
    high_prio = estimate_smart_fee call_method 6 (str "CONSERVATIVE");
    very_high_prio = estimate_smart_fee call_method 2 (str "CONSERVATIVE");
  }

  -- The conversions of headers and blocks are LDK's.
  unfoldable pub get_header :
      {H : Type 0} → (V → Outcome IoError H) → Method V → Str → Outcome IoError H
  get_header into call_method header_hash =
      call_method (str "getblockheader") (of_str header_hash ∷ []) >>= into

  unfoldable pub get_block :
      {B : Type 0} → (V → Outcome IoError B) → Method V → Str → Outcome IoError B
  get_block into call_method header_hash =
      call_method (str "getblock") (of_str header_hash ∷ of_u64 0 ∷ []) >>= into

  unfoldable pub get_best_block :
      {B : Type 0} → (V → Outcome IoError B) → Method V → Outcome IoError B
  get_best_block into call_method = call_method (str "getblockchaininfo") [] >>= into

  unfoldable pub get_blockchain_info :
      (Str → Option Bytes) → Method V → Outcome IoError BlockchainInfo
  get_blockchain_info block_hash call_method =
      unwrap_result
        (call_method (str "getblockchaininfo") [] >>= blockchain_info floats json block_hash)

  unfoldable pub get_raw_mempool : Method V → Outcome IoError (List Str)
  get_raw_mempool call_method =
      unwrap_result (call_method (str "getrawmempool") [] >>= mempool_info floats json)

  -- The calls that are spawned; their results are only logged.
  unfoldable pub broadcast_transactions : {Tx : Type 0} → (Tx → Str) → List Tx → List (Str × List V)
  broadcast_transactions serialize_hex txs =
      map (λ tx. (str "sendrawtransaction", of_str (serialize_hex tx) ∷ [])) txs
