-- ===== src/Cli/PayLaws.antt =====
-- What a payment leaves in the records, and when the code panics.
use programming_lightning_bu.Base.{
  ◌⊎◌, inl, inr, Option-cases, ℕ, ◌≡◌, refl, Bool, true, Option, none, some, [], ◌∷◌, ◌++◌, ◌==◌,
  option_eq, nat_eq, list_eq, ok, panic, if◌then◌else◌, arith,
}
use programming_lightning_bu.Base.Dict.{lookup, insert, modify, lookup-insert, lookup-modify}
use programming_lightning_bu.Payments.{pending, Bytes, Payments, PaymentInfo, failed, set_status}
use programming_lightning_bu.Node.{
  Ldk, Node, Call, send_payment as send_payment_call, send_spontaneous_payment, persist_outbound,
  persist,
}
use programming_lightning_bu.Cli.Pay.{
  Invoice, Router, new_record, pay_params, record_failure, record_pending, pay, send_payment,
  keysend,
}

-- The record of a payment that was handed to LDK.
abbrev pub attempt : Bool → Option Bytes → Option ℕ → PaymentInfo
attempt accepted secret amt_msat = record {
  preimage = none;
  secret = secret;
  status = if accepted then pending else failed;
  amt_msat = amt_msat;
}

module _ (l : Ldk) where
  outbound-record_pending :
      (id : Bytes) (info : PaymentInfo) (n : Node)
      → (record_pending l id info n).1.outbound ≡ insert id info n.outbound
  unfolding record_pending persist_outbound
  outbound-record_pending id info n = refl

  calls-record_pending :
      (id : Bytes) (info : PaymentInfo) (n : Node) → (record_pending l id info n).1.calls ≡ n.calls
  unfolding record_pending persist_outbound
  calls-record_pending id info n = refl

  outbound-record_failure :
      (id : Bytes) (n : Node)
      → (record_failure l id n).0 ≡ ok tt
      → (record_failure l id n).1.outbound ≡ modify id (set_status failed) n.outbound
  unfolding record_failure persist_outbound
  outbound-record_failure id n e = elim (Option-cases (lookup id n.outbound)) [
    | inl k ↦ ground (arith, k)
    | inr (p, k) ↦ ground (arith, k)
  ]

  lookup-failed :
      (id j : Bytes) (info : PaymentInfo) (d : Payments)
      → lookup j (modify id (set_status failed) (insert id info d))
        ≡ (if id == j then some (set_status failed info) else lookup j d)
  lookup-failed id j info d =
      ground (
        arith,
        lookup-insert id j info d,
        lookup-modify id j (set_status failed) (insert id info d),
      )

  outcome-record_pending :
      (id : Bytes) (info : PaymentInfo) (n : Node)
      → ((record_pending l id info n).0 ≡ ok tt) ⊎ ((record_pending l id info n).0 ≡ panic)
  unfolding record_pending persist_outbound persist
  outcome-record_pending id info n = ground arith

  -- The node behind the call of LDK.
  abbrev asked : Bytes → PaymentInfo → Call → Node → Node
  asked id info call n =
      let m = (record_pending l id info n).1 in record m { calls = m.calls ++ call ∷ [] }

  -- A message instead of route parameters changes nothing.
  refused_unchanged :
      (r : Router) (i : Invoice) (required : Option ℕ) (n : Node)
      → pay_params r i required ≡ none
      → send_payment l r i required n ≡ (ok tt, n)
  unfolding send_payment pay
  refused_unchanged r i required n e = ground (arith, e)

  -- If `sendpayment` returns for an invoice with route parameters, the payment is recorded under
  -- its hash with the invoice's secret and amount, as pending if LDK accepted it and as failed if
  -- not, whatever was recorded there before, and every other payment's record is as it was.
  pub lookup-send_payment :
      (r : Router) (i : Invoice) (required : Option ℕ) (params j : Bytes) (n : Node)
      → pay_params r i required ≡ some params
      → (send_payment l r i required n).0 ≡ ok tt
      → lookup j (send_payment l r i required n).1.outbound ≡ (
          if i.payment_hash == j
          then some (
              attempt
                (l.accepts n.calls (send_payment_call i.payment_hash params))
                (some i.payment_secret)
                i.amount_milli_satoshis)
          else lookup j n.outbound)
  unfolding send_payment pay
  lookup-send_payment r i required params j n e done =
      let id = i.payment_hash in
      let info = new_record (some i.payment_secret) i.amount_milli_satoshis in
      ground (
        arith,
        e,
        outbound-record_pending id info n,
        calls-record_pending id info n,
        outbound-record_failure id (asked id info (send_payment_call id params) n),
        lookup-insert id j info n.outbound,
        lookup-failed id j info n.outbound,
      )

  -- If `keysend` returns, the payment is recorded under the hash of its preimage with its amount and
  -- no secret, as pending if LDK accepted it and as failed if not, and every other payment's record
  -- is as it was.
  pub lookup-keysend :
      (sha256 : Bytes → Bytes) (payee : Bytes) (amt_msat : ℕ) (preimage j : Bytes) (n : Node)
      → (keysend l sha256 payee amt_msat preimage n).0 ≡ ok tt
      → lookup j (keysend l sha256 payee amt_msat preimage n).1.outbound ≡ (
          if sha256 preimage == j
          then some (
              attempt
                (l.accepts n.calls (send_spontaneous_payment preimage payee amt_msat))
                none
                (some amt_msat))
          else lookup j n.outbound)
  unfolding keysend
  lookup-keysend sha256 payee amt_msat preimage j n done =
      let id = sha256 preimage in
      let info = new_record none (some amt_msat) in
      ground (
        arith,
        outbound-record_pending id info n,
        calls-record_pending id info n,
        outbound-record_failure id
            (asked id info (send_spontaneous_payment preimage payee amt_msat) n),
        lookup-insert id j info n.outbound,
        lookup-failed id j info n.outbound,
      )

  -- Paying an invoice without an amount panics once LDK has accepted the payment, although the
  -- amount was given: the message unwraps the invoice's own amount.
  pub send_payment_no_amount :
      (r : Router) (i : Invoice) (amt_msat : ℕ) (params : Bytes) (n : Node)
      → i.amount_milli_satoshis ≡ none
      → r.from_zero_amount_invoice i amt_msat ≡ some params
      → l.accepts n.calls (send_payment_call i.payment_hash params) ≡ true
      → (send_payment l r i (some amt_msat) n).0 ≡ panic
  unfolding send_payment pay pay_params
  send_payment_no_amount r i amt_msat params n unknown routed accepted =
      let info = new_record (some i.payment_secret) i.amount_milli_satoshis in
      ground (
        arith,
        calls-record_pending i.payment_hash info n,
        outcome-record_pending i.payment_hash info n,
      )
