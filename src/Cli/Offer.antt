-- ===== src/Cli/Offer.antt =====
-- Paying an offer in the arm `sendpayment` of `poll_for_user_input` of src/cli.rs. `input` holds what
-- each further `read_line` appends to `line`, or `none` where it is an error, as for text that is not
-- UTF-8. At the end of the input nothing is appended.
use programming_lightning_bu.Base.{
  ℕ, zero, suc, Str, Bool, true, false, Option, none, some, List, [], ◌∷◌, ◌++◌, if◌then◌else◌,
  ◌==◌, option_eq, nat_eq, eqb, is_empty,
}
use programming_lightning_bu.Exec.{Exec, ◌>>=◌, ◌>>◌, pure}
use programming_lightning_bu.Payments.{Bytes}
use programming_lightning_bu.Node.{Ldk, Node, pay_for_offer, ask}
use programming_lightning_bu.Cli.Pay.{new_record, record_pending}

-- `offer.amount()`
pub data Amount : Type 0 where
  bitcoin : ℕ → Amount
  currency unstated : Amount

pub data Answer : Type 0 where
  yes_pay no_skip end_of_input read_failed : Answer

abbrev starts_with : ℕ → Str → Bool
starts_with c [] = false
starts_with c (x ∷ s) = eqb x c

abbrev next_line : List (Option Str) → Option Str
next_line [] = some []
next_line (l ∷ input) = l

abbrev later_lines : List (Option Str) → List (Option Str)
later_lines [] = []
later_lines (l ∷ input) = input

-- The loop that asks for a confirmation, cut off after `rounds` rounds: `none` if it still runs.
unfoldable pub confirm : ℕ → Str → List (Option Str) → Option (Answer × List (Option Str))
confirm zero line input = none
confirm (suc rounds) line input = elim (next_line input) [
  | none ↦ some (read_failed, later_lines input)
  | some read ↦
      let line' = line ++ read in
      let again = confirm rounds line' (later_lines input) in
      if is_empty line'
      then some (end_of_input, later_lines input)
      else if starts_with b'Y' line'
      then some (yes_pay, later_lines input)
      else if starts_with b'N' line'
      then some (no_skip, later_lines input)
      else again
]

-- The amount to pay: the offer's, or else the user's; `none` after an error message.
unfoldable pub offer_amount : Amount → Option ℕ → Option ℕ
offer_amount (bitcoin amount_msats) user = some amount_msats
offer_amount _ user = user

-- An amount that the user gave has to be the one to pay.
unfoldable pub agreed_amount : Amount → Option ℕ → Option ℕ
unfolding offer_amount option_eq nat_eq
agreed_amount offered none = offer_amount offered none
agreed_amount offered (some amt) = elim (offer_amount offered (some amt)) [
  | none ↦ none
  | some amt_msat ↦ if some amt == some amt_msat then some amt_msat else none
]

module _ (l : Ldk) where
  -- Behind the loop.
  unfoldable pub send_offer : Bytes → Bytes → ℕ → Exec Node (Unit {0})
  unfolding record_pending ask ◌>>=◌
  send_offer offer payment_id amt_msat = do
    record_pending l payment_id (new_record none (some amt_msat))
    ask l (pay_for_offer offer amt_msat payment_id)
    pure tt

  -- The arm for an offer: `true` to go on with the next command, `false` to leave the program, and
  -- `none` if the loop still runs after `rounds` rounds.
  unfoldable pub pay_offer :
      ℕ
      → Str
      → List (Option Str)
      → Bytes
      → Amount
      → Option ℕ
      → Bytes
      → Exec Node (Option Bool × List (Option Str))
  unfolding agreed_amount confirm send_offer ◌>>=◌
  pay_offer rounds line input offer offered user payment_id = elim (agreed_amount offered user) [
    | none ↦ pure (some true, input)
    | some amt_msat ↦ elim user [
      | some amt ↦ send_offer offer payment_id amt_msat >> pure (some true, input)
      | none ↦ elim (confirm rounds line input) [
        | none ↦ pure (none, input)
        | some (yes_pay, rest) ↦ send_offer offer payment_id amt_msat >> pure (some true, rest)
        | some (no_skip, rest) ↦ pure (some true, rest)
        | some (end_of_input, rest) ↦ pure (some false, rest)
        | some (read_failed, rest) ↦ pure (some false, rest)
      ]
    ]
  ]
