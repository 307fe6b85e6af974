-- ===== src/Cli/Pay.antt =====
-- `send_payment`, `keysend` and `get_invoice` of src/cli.rs.
use programming_lightning_bu.Base.{
  ℕ, Bool, true, not, Option, none, some, List, eqb, ◌==◌, option_eq, nat_eq, list_eq, unwrap,
  if◌then◌else◌,
}
use programming_lightning_bu.Base.Dict.{lookup, insert, modify}
use programming_lightning_bu.Exec.{Exec, ◌>>=◌, ◌>>◌, pure, lift}
use programming_lightning_bu.Payments.{Bytes, PaymentInfo, pending, failed, set_status}
use programming_lightning_bu.Node.{
  Ldk, Node, Call, send_payment as send_payment_call, send_spontaneous_payment, create_invoice,
  tell, ask, set_inbound, set_outbound, persist_outbound, command_line,
}

-- What the code reads of a `Bolt11Invoice`.
pub record Invoice : Type 0 where
  pub payment_hash : Bytes
  pub payment_secret : Bytes
  pub amount_milli_satoshis : Option ℕ

-- LDK's route parameters of an invoice, of a zero-amount invoice with an amount, and its invoices.
pub record Router : Type 0 where
  pub from_invoice : Invoice → Option Bytes
  pub from_zero_amount_invoice : Invoice → ℕ → Option Bytes
  pub new_invoice : List Call → ℕ → ℕ → Option Invoice

abbrev pub new_record : Option Bytes → Option ℕ → PaymentInfo
new_record secret amt_msat = record {
  preimage = none;
  secret = secret;
  status = pending;
  amt_msat = amt_msat;
}

unfoldable pub is_zero_amount : Invoice → Bool
is_zero_amount i = elim i.amount_milli_satoshis [ none ↦ true | some a ↦ eqb a 0 ]

-- The route parameters, or `none` where the function prints a message and returns.
unfoldable pub pay_params : Router → Invoice → Option ℕ → Option Bytes
unfolding is_zero_amount option_eq nat_eq
pay_params r i none = if is_zero_amount i then none else r.from_invoice i
pay_params r i (some amt_msat) =
    if is_zero_amount i
    then r.from_zero_amount_invoice i amt_msat
    else if not (i.amount_milli_satoshis == some amt_msat)
    then none
    else r.from_invoice i

module _ (l : Ldk) where
  -- `outbound_payments.payments.get_mut(&payment_id).unwrap().status = HTLCStatus::Failed`, saved.
  unfoldable pub record_failure : Bytes → Exec Node (Unit {0})
  unfolding ◌>>=◌
  record_failure payment_id n =
      (do
        lift (unwrap (lookup payment_id n.outbound))
        set_outbound (modify payment_id (set_status failed) n.outbound)
        persist_outbound l command_line)
        n

  unfoldable pub record_pending : Bytes → PaymentInfo → Exec Node (Unit {0})
  unfolding ◌>>=◌
  record_pending payment_id info n =
      (do set_outbound (insert payment_id info n.outbound); persist_outbound l command_line) n

  -- With route parameters.
  unfoldable pub pay : Invoice → Bytes → Exec Node (Unit {0})
  unfolding ◌>>=◌ ask
  pay i route_params = do
    record_pending i.payment_hash (new_record (some i.payment_secret) i.amount_milli_satoshis)
    sent ← ask l (send_payment_call i.payment_hash route_params)
    if sent then lift (unwrap i.amount_milli_satoshis) >> pure tt else record_failure i.payment_hash

  unfoldable pub send_payment : Router → Invoice → Option ℕ → Exec Node (Unit {0})
  unfolding pay_params pay
  send_payment r i required_amount_msat = elim (pay_params r i required_amount_msat) [
    | none ↦ pure tt
    | some route_params ↦ pay i route_params
  ]

  -- `sha256` of the random preimage is the id.
  unfoldable pub keysend : (Bytes → Bytes) → Bytes → ℕ → Bytes → Exec Node (Unit {0})
  unfolding ◌>>=◌ ask
  keysend sha256 payee_pubkey amt_msat payment_preimage = do
    let payment_id = sha256 payment_preimage
    record_pending payment_id (new_record none (some amt_msat))
    sent ← ask l (send_spontaneous_payment payment_preimage payee_pubkey amt_msat)
    if sent then pure tt else record_failure payment_id

  unfoldable pub get_invoice : Router → ℕ → ℕ → Exec Node (Unit {0})
  unfolding tell ◌>>=◌
  get_invoice r amt_msat expiry_secs n =
      (do
        tell (create_invoice amt_msat expiry_secs)
        elim (r.new_invoice n.calls amt_msat expiry_secs) [
          | none ↦ pure tt
          | some i ↦
              set_inbound (
                insert i.payment_hash (new_record (some i.payment_secret) (some amt_msat))
                  n.inbound)
        ])
        n
