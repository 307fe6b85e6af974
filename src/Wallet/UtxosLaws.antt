-- ===== src/Wallet/UtxosLaws.antt =====
-- Which outputs LDK may spend.
use programming_lightning_bu.Base.{
  ℕ, ◌+◌, ◌≤◌, ◌≡◌, some, List, [], ◌∷◌, arith, if◌then◌else◌, inl, inr, Option-cases,
}
use programming_lightning_bu.Wallet.Utxos.{
  LocalOutput, Utxo, new_v0_p2wpkh, utxo, Addresses, utxo_of, list_confirmed_utxos,
}

abbrev pub value_of : Utxo → ℕ
value_of (new_v0_p2wpkh txid vout value wpkh) = value
value_of (utxo txid vout value script weight) = value

abbrev pub total : List Utxo → ℕ
total [] = 0
total (u ∷ us) = value_of u + total us

abbrev pub confirmed_balance : List LocalOutput → ℕ
confirmed_balance [] = 0
confirmed_balance (o ∷ os) = (if o.is_confirmed then o.value else 0) + confirmed_balance os

value-utxo_of :
    (a : Addresses) (o : LocalOutput) (u : Utxo) → utxo_of a o ≡ some u → value_of u ≡ o.value
unfolding utxo_of
value-utxo_of a o u e = ground (arith, e)

-- What LDK is offered is worth at most the wallet's confirmed outputs.
pub list_confirmed_utxos-total :
    (a : Addresses) (unspent : List LocalOutput)
    → total (list_confirmed_utxos a unspent) ≤ confirmed_balance unspent
unfolding list_confirmed_utxos
list_confirmed_utxos-total a [] = omega arith
list_confirmed_utxos-total a (o ∷ os) =
    let rest = list_confirmed_utxos-total a os in
    elim (Option-cases (utxo_of a o)) [
      | inl k ↦ ground (arith, k, rest)
      | inr (u, k) ↦ ground (arith, k, rest, value-utxo_of a o u k)
    ]
