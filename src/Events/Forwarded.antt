-- ===== src/Events/Forwarded.antt =====
-- What the event `PaymentForwarded` prints, in `handle_ldk_events` of src/main.rs. Of LDK: the
-- channels, the announced names of nodes, and the text of a channel's id.
use programming_lightning_bu.Base.{
  ℕ, Str, str, Bool, Option, none, some, [], ◌++◌, list_eq, nat_eq, if◌then◌else◌,
}
use programming_lightning_bu.Base.Dict.{Dict, lookup}
use programming_lightning_bu.Payments.{Bytes}
use programming_lightning_bu.Text.{show}

-- `nodes` of the network graph: the alias of an announced node.
pub record Graph : Type 0 where
  pub channels : Dict Bytes Bytes
  pub nodes : Dict Bytes (Option Str)
  pub show_channel_id : Bytes → Str

-- A channel is found by its id, the first of the list.
unfoldable pub node_str : Graph → Option Bytes → Str
node_str g none = []
node_str g (some channel_id) = elim (lookup channel_id g.channels) [
  | none ↦ []
  | some counterparty ↦ elim (lookup counterparty g.nodes) [
    | none ↦ str "private node"
    | some none ↦ str "unnamed node"
    | some (some alias) ↦ str "node " ++ alias
  ]
]

unfoldable pub channel_str : Graph → Option Bytes → Str
channel_str g none = []
channel_str g (some channel_id) = str " with channel " ++ g.show_channel_id channel_id

abbrev amt_args : Option ℕ → Str
amt_args (some v) = show v
amt_args none = str "?"

abbrev from_onchain_str : Bool → Str
from_onchain_str claim_from_onchain_tx =
    if claim_from_onchain_tx
    then str "from onchain downstream claim"
    else str "from HTLC fulfill message"

-- The line that is printed.
unfoldable pub on_payment_forwarded :
    Graph → Option Bytes → Option Bytes → Option ℕ → Bool → Option ℕ → Str
unfolding node_str channel_str
on_payment_forwarded g prev next fee_earned_msat claim_from_onchain_tx outbound_amount_msat =
    let from_prev_str = str " from " ++ (node_str g prev ++ channel_str g prev) in
    let to_next_str = str " to " ++ (node_str g next ++ channel_str g next) in
    let start =
      str "EVENT: Forwarded payment for "
      ++ (amt_args outbound_amount_msat ++ (str " msat" ++ (from_prev_str ++ to_next_str))) in
    elim fee_earned_msat [
      | some fee_earned ↦
          start
          ++ (str ", earning "
              ++ (show fee_earned ++ (str " msat " ++ from_onchain_str claim_from_onchain_tx)))
      | none ↦ start ++ (str ", claiming onchain " ++ from_onchain_str claim_from_onchain_tx)
    ]
