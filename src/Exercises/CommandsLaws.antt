-- ===== src/Exercises/CommandsLaws.antt =====
-- What `send_ln_payment` leaves.
use programming_lightning_bu.Base.{
  ℕ, ◌≡◌, Option, none, some, [], ok, arith, if◌then◌else◌, ◌==◌, list_eq, nat_eq, pair_eq,
}
use programming_lightning_bu.Base.Dict.{lookup, insert, lookup-insert}
use programming_lightning_bu.Payments.{PaymentInfo, Bytes, pending}
use programming_lightning_bu.Cli.Pay.{Invoice}
use programming_lightning_bu.FileStore.{Key, write}
use programming_lightning_bu.Exercises.Commands.{
  Sketch, encode, outbound_payments_fname, save, ask_manager, send_payment, send_ln_payment,
}

-- If LDK finds the route parameters of an invoice with an amount, the function returns; the payment
-- is recorded as pending, no other record changes, the channel manager was given its id, and the
-- store holds the encoded records.
pub send_ln_payment_lem :
    (pay_params : Invoice → Option Bytes) (i : Invoice) (params j : Bytes) (a : ℕ) (s : Sketch)
    → pay_params i ≡ some params
    → i.amount_milli_satoshis ≡ some a
    → ((send_ln_payment pay_params i s).0 ≡ ok tt)
      × (lookup j (send_ln_payment pay_params i s).1.outbound_payments ≡ (
          if i.payment_hash == j
          then some (record {
            preimage = none;
            secret = some i.payment_secret;
            status = pending;
            amt_msat = some a;
          })
          else lookup j s.outbound_payments))
      × ((send_ln_payment pay_params i s).1.manager.payment ≡ some i.payment_hash)
      × (lookup
            ([], ([], outbound_payments_fname))
            (send_ln_payment pay_params i s).1.fs_store.entries
          ≡ some (encode (send_ln_payment pay_params i s).1.outbound_payments))
unfolding send_ln_payment save ask_manager send_payment write
send_ln_payment_lem pay_params i params j a s routed known =
    let id = i.payment_hash in
    let info : PaymentInfo = record {
      preimage = none;
      secret = some i.payment_secret;
      status = pending;
      amt_msat = some a;
    } in
    let payments = insert id info s.outbound_payments in
    let k : Key = ([], ([], outbound_payments_fname)) in
    ground (
      arith,
      routed,
      known,
      lookup-insert id j info s.outbound_payments,
      lookup-insert k k (encode payments) s.fs_store.entries,
    )
