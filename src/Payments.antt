-- ===== src/Payments.antt =====
-- The payment records of src/main.rs. Hashes, ids, preimages and secrets are their bytes; a
-- `HashMap` from them is an association list.
pub mod Laws
use programming_lightning_bu.Base.{
  ℕ, ◌≡◌, Str, str, Bool, true, false, not, Option, none, some, List, [], ◌∷◌, ◌==◌, list_eq,
  nat_eq, contains, Outcome, ok, err, panic, if◌then◌else◌, ◌>>=◌,
}
use programming_lightning_bu.Base.Dict.{Dict, lookup, insert, modify}
use programming_lightning_bu.Exec.{IoError}
use programming_lightning_bu.Text.{show}

abbrev pub Bytes : Type 0
Bytes = List ℕ

pub data HtlcStatus : Type 0 where
  pending succeeded failed : HtlcStatus

abbrev pub MillisatAmount : Type 0
MillisatAmount = Option ℕ

-- `Display for MillisatAmount`
unfoldable pub show_amount : MillisatAmount → Str
unfolding show
show_amount (some amt) = show amt
show_amount none = str "unknown"

pub record PaymentInfo : Type 0 where
  pub preimage : Option Bytes
  pub secret : Option Bytes
  pub status : HtlcStatus
  pub amt_msat : MillisatAmount

-- The field `payments` of `InboundPaymentInfoStorage`, by payment hash, and of
-- `OutboundPaymentInfoStorage`, by payment id.
abbrev pub Payments : Type 0
Payments = Dict Bytes PaymentInfo

abbrev pub set_status : HtlcStatus → PaymentInfo → PaymentInfo
set_status st p = record p { status = st }

-- The match on `inbound.payments.entry(payment_hash)` in `PaymentClaimed`.
unfoldable pub claim : Bytes → Option Bytes → Option Bytes → ℕ → Payments → Payments
claim hash preimage secret amount_msat inbound = elim (lookup hash inbound) [
  | some old ↦
      modify hash (λ p. record p { status = succeeded; preimage = preimage; secret = secret })
        inbound
  | none ↦
      insert hash
        (record {
          preimage = preimage;
          secret = secret;
          status = succeeded;
          amt_msat = some amount_msat;
        })
        inbound
]

-- The loop of `PaymentSent`: the id is unwrapped for each record.
unfoldable pub mark_sent : Option Bytes → Bytes → Payments → Outcome IoError Payments
mark_sent payment_id preimage [] = ok []
mark_sent none preimage (entry ∷ outbound) = panic
mark_sent (some payment_id) preimage ((id, p) ∷ outbound) =
    mark_sent (some payment_id) preimage outbound >>= λ rest. ok (
      (
        id,
        if id == payment_id then record p { preimage = some preimage; status = succeeded } else p,
      )
      ∷ rest)

-- The update of `PaymentFailed`.
unfoldable pub mark_failed : Bytes → Payments → Payments
mark_failed payment_id outbound = elim (lookup payment_id outbound) [
  | some p ↦ modify payment_id (set_status failed) outbound
  | none ↦ outbound
]

unfoldable pub is_pending : HtlcStatus → Bool
is_pending pending = true
is_pending succeeded = false
is_pending failed = false

-- The loop of `start_ldk` over the pending records.
unfoldable pub fail_forgotten : List Bytes → Payments → Payments
unfolding is_pending
fail_forgotten recent [] = []
fail_forgotten recent ((id, p) ∷ outbound) =
    (
      id,
      if is_pending p.status
          then (if not (contains recent id) then set_status failed p else p)
          else p,
    )
    ∷ fail_forgotten recent outbound
