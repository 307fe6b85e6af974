-- ===== src/Convert.antt =====
-- src/convert.rs: the answers of bitcoind as records. `serde_json::Value` is a parameter with the
-- methods that the code calls, and so are the operations on `f64`.
pub mod Laws
use programming_lightning_bu.Base.{
  ℕ, ◌%◌, ◌^◌, Str, str, Bool, true, false, not, Option, none, some, List, [], ◌∷◌, Outcome, ok,
  err, panic, ok_or, unwrap, ◌>>=◌, if◌then◌else◌, ◌==◌, option_eq, nat_eq,
}
use programming_lightning_bu.Exec.{IoError, invalid_data}
use programming_lightning_bu.Payments.{Bytes}

-- `i64`
pub data ℤ : Type 0 where
  pos negsuc : ℕ → ℤ

-- What the code uses of `f64`; `from_btc` is `bitcoin::Amount::from_btc` in satoshis.
pub record Floats (F : Type 0) : Type 0 where
  pub literal : ℕ → F
  pub mul : F → F → F
  pub div : F → F → F
  pub round : F → F
  pub as_u32 : F → ℕ
  pub from_btc : F → Option ℕ

-- `get` is the index with a text, which gives null for a missing key.
pub record JsonValue (V F : Type 0) : Type 0 where
  pub get : Str → V → V
  pub is_null : V → Bool
  pub as_u64 : V → Option ℕ
  pub as_i64 : V → Option ℤ
  pub as_f64 : V → Option F
  pub as_bool : V → Option Bool
  pub as_str : V → Option Str
  pub as_array : V → Option (List V)

pub record FundedTx : Type 0 where
  pub changepos : ℤ
  pub hex : Str

pub record SignedTx : Type 0 where
  pub complete : Bool
  pub hex : Str

-- `FeeResponse` and `MempoolMinFeeResponse`
pub record FeeResponse : Type 0 where
  pub feerate_sat_per_kw : Option ℕ
  pub errored : Bool

pub record BlockchainInfo : Type 0 where
  pub latest_height : ℕ
  pub latest_blockhash : Bytes
  pub chain : Str

pub record ListUnspentUtxo : Type 0 where
  pub txid : Bytes
  pub vout : ℕ
  pub amount : ℕ
  pub address : Bytes

-- `map` and `collect` of a function that may fail or panic.
unfoldable pub collect_all :
    {A B : Type 0} → (A → Outcome IoError B) → List A → Outcome IoError (List B)
collect_all f [] = ok []
collect_all f (a ∷ as_) = do b ← f a; bs ← collect_all f as_; ok (b ∷ bs)

module _ {V F : Type 0} (floats : Floats F) (json : JsonValue V F) where
  unfoldable pub funded_tx : V → Outcome IoError FundedTx
  funded_tx v = do
    changepos ← unwrap (json.as_i64 (json.get (str "changepos") v))
    hex ← unwrap (json.as_str (json.get (str "hex") v))
    ok (record { changepos = changepos; hex = hex })

  unfoldable pub raw_tx : V → Outcome IoError Str
  raw_tx v = unwrap (json.as_str v)

  unfoldable pub signed_tx : V → Outcome IoError SignedTx
  signed_tx v = do
    hex ← unwrap (json.as_str (json.get (str "hex") v))
    complete ← unwrap (json.as_bool (json.get (str "complete") v))
    ok (record { complete = complete; hex = hex })

  unfoldable pub new_address : V → Outcome IoError Str
  new_address v = unwrap (json.as_str v)

  -- From BTC for 1000 virtual bytes to satoshis for 1000 weight units.
  unfoldable pub sat_per_kw : F → ℕ
  sat_per_kw feerate_btc_per_kvbyte = floats.as_u32 (
      floats.round (
        floats.div (floats.mul feerate_btc_per_kvbyte (floats.literal 100000000))
          (floats.literal 4)))

  unfoldable pub feerate : V → Option ℕ
  feerate v = elim (json.as_f64 v) [ some rate ↦ some (sat_per_kw rate) | none ↦ none ]

  unfoldable pub fee_response : V → Outcome IoError FeeResponse
  unfolding feerate
  fee_response v = ok (record {
    feerate_sat_per_kw = feerate (json.get (str "feerate") v);
    errored = not (json.is_null (json.get (str "errors") v));
  })

  -- `assert_eq!` on the limit of the mempool.
  unfoldable pub mempool_min_fee_response : V → Outcome IoError FeeResponse
  unfolding feerate
  mempool_min_fee_response v =
      if json.as_u64 (json.get (str "maxmempool") v) == some 300000000
      then ok (record {
        feerate_sat_per_kw = feerate (json.get (str "mempoolminfee") v);
        errored = not (json.is_null (json.get (str "errors") v));
      })
      else panic

  -- `BlockHash::from_str`
  unfoldable pub blockchain_info : (Str → Option Bytes) → V → Outcome IoError BlockchainInfo
  blockchain_info block_hash v = do
    latest_height ← unwrap (json.as_u64 (json.get (str "blocks") v))
    best ← unwrap (json.as_str (json.get (str "bestblockhash") v))
    latest_blockhash ← unwrap (block_hash best)
    chain ← unwrap (json.as_str (json.get (str "chain") v))
    ok (record {
      latest_height = latest_height;
      latest_blockhash = latest_blockhash;
      chain = chain;
    })

  -- `Txid::from_str` and `Address::from_str`
  unfoldable pub list_unspent_utxo :
      (Str → Option Bytes) → (Str → Option Bytes) → V → Outcome IoError ListUnspentUtxo
  list_unspent_utxo txid_from_str address_from_str utxo = do
    txid_str ← unwrap (json.as_str (json.get (str "txid") utxo))
    txid ← unwrap (txid_from_str txid_str)
    vout ← unwrap (json.as_u64 (json.get (str "vout") utxo))
    btc ← unwrap (json.as_f64 (json.get (str "amount") utxo))
    amount ← unwrap (floats.from_btc btc)
    address_str ← unwrap (json.as_str (json.get (str "address") utxo))
    address ← unwrap (address_from_str address_str)
    ok (record { txid = txid; vout = vout % 2 ^ 32; amount = amount; address = address })

  unfoldable pub list_unspent_response :
      (Str → Option Bytes) → (Str → Option Bytes) → V → Outcome IoError (List ListUnspentUtxo)
  list_unspent_response txid_from_str address_from_str v = do
    utxos ← unwrap (json.as_array v)
    collect_all (list_unspent_utxo txid_from_str address_from_str) utxos

  unfoldable pub mempool_info : V → Outcome IoError (List Str)
  mempool_info v = do
    array ← ok_or (json.as_array v) invalid_data
    collect_all (λ item. ok_or (json.as_str item) invalid_data) array
