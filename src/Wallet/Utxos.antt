-- ===== src/Wallet/Utxos.antt =====
-- `list_confirmed_utxos` of src/onchain_wallet.rs. Of BDK: the wallet's outputs, and what kind of
-- witness program the address of a script has. `from_slice` of the keys may fail.
use programming_lightning_bu.Base.{ℕ, ◌+◌, ◌*◌, Bool, Option, none, some, List, [], ◌∷◌, filter}
use programming_lightning_bu.Payments.{Bytes}

-- A `LocalOutput` of BDK.
pub record LocalOutput : Type 0 where
  pub txid : Bytes
  pub vout : ℕ
  pub value : ℕ
  pub script_pubkey : Bytes
  pub is_confirmed : Bool

pub data Program : Type 0 where
  p2wpkh p2tr : Bytes → Program
  other : Program

-- `Utxo` of LDK. `new_v0_p2wpkh` fixes script and weight from the key's hash.
pub data Utxo : Type 0 where
  new_v0_p2wpkh : Bytes → ℕ → ℕ → Bytes → Utxo
  utxo : Bytes → ℕ → ℕ → Bytes → ℕ → Utxo

-- An empty script, the number of witness items, the signature's length and the signature.
abbrev pub taproot_weight : ℕ
taproot_weight = 1 * 4 + 1 + 1 + 64

pub record Addresses : Type 0 where
  -- `Address::from_script` and `witness_program`; `none` where there is no address.
  pub witness_program : Bytes → Option Program
  pub wpubkey_hash : Bytes → Option Bytes
  pub x_only_public_key : Bytes → Option Bytes

unfoldable pub utxo_of : Addresses → LocalOutput → Option Utxo
utxo_of a o = elim (a.witness_program o.script_pubkey) [
  | some (p2wpkh program) ↦ elim (a.wpubkey_hash program) [
    | some wpkh ↦ some (new_v0_p2wpkh o.txid o.vout o.value wpkh)
    | none ↦ none
  ]
  | some (p2tr program) ↦ elim (a.x_only_public_key program) [
    | some key ↦ some (utxo o.txid o.vout o.value o.script_pubkey taproot_weight)
    | none ↦ none
  ]
  | some other ↦ none
  | none ↦ none
]

abbrev pub filter_map : {A B : Type 0} → (A → Option B) → List A → List B
filter_map f [] = []
filter_map f (a ∷ rest) =
    let others = filter_map f rest in elim (f a) [ some b ↦ b ∷ others | none ↦ others ]

unfoldable pub list_confirmed_utxos : Addresses → List LocalOutput → List Utxo
unfolding utxo_of
list_confirmed_utxos a unspent = filter_map (utxo_of a) (filter (λ o. o.is_confirmed) unspent)
