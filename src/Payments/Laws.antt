-- ===== src/Payments/Laws.antt =====
-- What the updates do to the record of each payment.
use programming_lightning_bu.Base.{
  ℕ, ◌≡◌, ◌≢◌, ◌↔◌, refl, not, Option, none, some, List, [], ◌∷◌, ◌==◌, list_eq, nat_eq, contains,
  ok, panic, if◌then◌else◌, arith, Bool,
}
use programming_lightning_bu.Base.Dict.{lookup, lookup-insert, lookup-modify}
use programming_lightning_bu.Payments.{
  HtlcStatus, pending, Bytes, succeeded, failed, PaymentInfo, Payments, set_status, claim,
  mark_sent, mark_failed, is_pending, fail_forgotten,
}

-- The amount that a claimed payment's record shows: the recorded one, or else the event's.
abbrev pub amount_of : Option PaymentInfo → ℕ → Option ℕ
amount_of (some p) amount = p.amt_msat
amount_of none amount = some amount

-- After `PaymentClaimed` the payment is recorded as succeeded with the event's preimage and secret
-- and with the amount that was recorded before, if there was a record, and every other payment's
-- record is as it was.
pub lookup-claim :
    (hash j : Bytes) (preimage secret : Option Bytes) (amount : ℕ) (inbound : Payments)
    → lookup j (claim hash preimage secret amount inbound) ≡ (
        if hash == j
        then some (record {
          preimage = preimage;
          secret = secret;
          status = succeeded;
          amt_msat = amount_of (lookup hash inbound) amount;
        })
        else lookup j inbound)
unfolding claim
lookup-claim hash j preimage secret amount inbound =
    let fresh : PaymentInfo = record {
      preimage = preimage;
      secret = secret;
      status = succeeded;
      amt_msat = some amount;
    } in
    let update =
      λ (p : PaymentInfo). record p { status = succeeded; preimage = preimage; secret = secret } in
    ground (arith, lookup-insert hash j fresh inbound, lookup-modify hash j update inbound)

abbrev pub sent : Bytes → PaymentInfo → PaymentInfo
sent preimage p = record p { preimage = some preimage; status = succeeded }

abbrev pub map_info : (PaymentInfo → PaymentInfo) → Option PaymentInfo → Option PaymentInfo
map_info f none = none
map_info f (some p) = some (f p)

-- With an id `PaymentSent` does not panic: that payment's record, if there is one, has succeeded
-- with the preimage, and every other record is as it was.
pub mark_sent_lem :
    (id j preimage : Bytes) (outbound : Payments)
    → (out : Payments) × (mark_sent (some id) preimage outbound ≡ ok out)
      × (lookup j out
          ≡ (if id == j then map_info (sent preimage) (lookup j outbound) else lookup j outbound))
unfolding mark_sent lookup
mark_sent_lem id j preimage [] = ([], refl, ground arith)
mark_sent_lem id j preimage ((i, p) ∷ outbound) =
    let (out, e, l) = mark_sent_lem id j preimage outbound in
    ((i, if i == id then sent preimage p else p) ∷ out, ground (arith, e), ground (arith, l))

-- The loop panics exactly if the event has no id and some payment is recorded.
mark_sent_panic :
    (id : Option Bytes) (preimage : Bytes) (outbound : Payments)
    → (mark_sent id preimage outbound ≡ panic) ↔ (id ≡ none) × (outbound ≢ [])
unfolding mark_sent
mark_sent_panic none preimage [] = ground arith
mark_sent_panic none preimage (x ∷ outbound) = ground arith
mark_sent_panic (some id) preimage outbound =
    let (out, e, _) = mark_sent_lem id id preimage outbound in ground (arith, e)

-- After `PaymentFailed` the payment's record, if there is one, has failed, and every other record
-- is as it was; none is made.
lookup-mark_failed :
    (id j : Bytes) (outbound : Payments)
    → lookup j (mark_failed id outbound)
      ≡ (if id == j then map_info (set_status failed) (lookup j outbound) else lookup j outbound)
unfolding mark_failed
lookup-mark_failed id j outbound = ground (arith, lookup-modify id j (set_status failed) outbound)

abbrev status_at_restart : Bool → HtlcStatus → HtlcStatus
status_at_restart listed pending = if listed then pending else failed
status_at_restart listed succeeded = succeeded
status_at_restart listed failed = failed

-- What becomes of an outbound record: a pending one whose id LDK does not list has failed.
abbrev pub after_restart : List Bytes → Bytes → PaymentInfo → PaymentInfo
after_restart recent id p = record p { status = status_at_restart (contains recent id) p.status }

fail_one-after_restart :
    (recent : List Bytes) (id : Bytes) (p : PaymentInfo) (s : HtlcStatus)
    → p.status ≡ s
    → (if is_pending p.status
        then (if not (contains recent id) then set_status failed p else p)
        else p)
      ≡ after_restart recent id p
unfolding is_pending
fail_one-after_restart recent id p pending e = ground (arith, e)
fail_one-after_restart recent id p succeeded e = ground (arith, e)
fail_one-after_restart recent id p failed e = ground (arith, e)

-- At start-up a record that is pending and that LDK does not list among the recent payments fails,
-- and every other record is as it was.
pub lookup-fail_forgotten :
    (recent : List Bytes) (j : Bytes) (outbound : Payments)
    → lookup j (fail_forgotten recent outbound)
      ≡ map_info (after_restart recent j) (lookup j outbound)
unfolding fail_forgotten lookup
lookup-fail_forgotten recent j [] = refl
lookup-fail_forgotten recent j ((i, p) ∷ outbound) = ground (
  arith,
  lookup-fail_forgotten recent j outbound,
  fail_one-after_restart recent i p p.status refl,
)
