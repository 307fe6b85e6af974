-- ===== src/Cli/Commands.antt =====
-- `poll_for_user_input` of src/cli.rs: what one line of input does. Commands that only print do
-- nothing here.
use programming_lightning_bu.Base.{
  ℕ, Str, str, Bool, true, false, ◌||◌, Option, none, some, List, [], ◌∷◌, ok, err, panic,
  if◌then◌else◌, ◌==◌, list_eq, nat_eq, is_empty, length, drop, leb,
}
use programming_lightning_bu.Exec.{Exec, ◌>>=◌, ◌>>◌, pure}
use programming_lightning_bu.FilePath.{FilePath}
use programming_lightning_bu.Text.{words, trim, parse_uint, u64_max, u32_max}
use programming_lightning_bu.HexUtils.{to_compressed_pubkey}
use programming_lightning_bu.Payments.{Bytes}
use programming_lightning_bu.Node.{
  Ldk, Node, Call, get_address, tell, persist_inbound, command_line,
}
use programming_lightning_bu.Peers.{connect_peer_if_necessary, do_disconnect_peer}
use programming_lightning_bu.Cli.PeerInfo.{parse_peer_info}
use programming_lightning_bu.Cli.Pay.{Invoice, Router, send_payment, keysend, get_invoice}
use programming_lightning_bu.Cli.Channels.{
  Parsers, on_openchannel, on_closechannel, on_forceclosechannel,
}
use programming_lightning_bu.Cli.Offer.{Amount, pay_offer}

-- What the commands are given besides the node.
pub record Setup : Type 0 where
  pub ldk : Ldk
  pub router : Router
  pub parsers : Parsers
  pub ldk_data_dir : FilePath
  pub public_key : Str → Option Bytes
  pub offer : Str → Option (Bytes × Amount)
  pub invoice : Str → Option Invoice
  pub sha256 : Bytes → Bytes
  pub random : List Call → Bytes

pub data Flow : Type 0 where
  next_command leave still_asking : Flow

abbrev pub flow_of : Option Bool → Flow
flow_of none = still_asking
flow_of (some true) = next_command
flow_of (some false) = leave

-- The second word of `sendpayment`: `none` is a number that cannot be read.
unfoldable pub user_amount : List Str → Option (Option ℕ)
unfolding parse_uint
user_amount [] = some none
user_amount (amt_msat_str ∷ rest) = elim (parse_uint u64_max amt_msat_str) [
  | some amt ↦ some (some amt)
  | none ↦ none
]

-- The bytes that `signmessage` signs: none without a message.
unfoldable pub message_of : Str → Option Bytes
unfolding trim
message_of line = if leb (length (trim line)) 12 then none else some (drop 12 (trim line))

module _ (s : Setup) where
  unfoldable pub on_sendpayment :
      ℕ → Str → List (Option Str) → List Str → Exec Node (Flow × List (Option Str))
  unfolding user_amount send_payment pay_offer ◌>>=◌
  on_sendpayment rounds line input [] n = (ok (next_command, input), n)
  on_sendpayment rounds line input (invoice_str ∷ rest) n =
      elim (user_amount rest) as (λ _. Exec Node (Flow × List (Option Str))) [
        | none ↦ pure (next_command, input)
        | some user ↦ elim (s.offer invoice_str) [
          | some (offer, offered) ↦ do
            (r, input') ← pay_offer s.ldk rounds line input offer offered user (s.random n.calls)
            pure (flow_of r, input')
          | none ↦ elim (s.invoice invoice_str) [
            | some i ↦ send_payment s.ldk s.router i user >> pure (next_command, input)
            | none ↦ pure (next_command, input)
          ]
        ]
      ]
        n

  unfoldable pub on_keysend : List Str → Exec Node (Unit {0})
  unfolding to_compressed_pubkey parse_uint keysend
  on_keysend (dest ∷ amt_msat_str ∷ rest) n =
      elim (to_compressed_pubkey s.parsers.from_slice dest) as (λ _. Exec Node (Unit {0})) [
        | none ↦ pure tt
        | some dest_pubkey ↦ elim (parse_uint u64_max amt_msat_str) [
          | none ↦ pure tt
          | some amt_msat ↦ keysend s.ldk s.sha256 dest_pubkey amt_msat (s.random n.calls)
        ]
      ]
        n
  on_keysend _ n = (ok tt, n)

  unfoldable pub on_getinvoice : List Str → Exec Node (Unit {0})
  unfolding parse_uint get_invoice ◌>>=◌
  on_getinvoice (amt_str ∷ expiry_secs_str ∷ rest) = elim (parse_uint u64_max amt_str) [
    | none ↦ pure tt
    | some amt_msat ↦ elim (parse_uint u32_max expiry_secs_str) [
      | none ↦ pure tt
      | some expiry_secs ↦ do
        get_invoice s.ldk s.router amt_msat expiry_secs
        persist_inbound s.ldk command_line
    ]
  ]
  on_getinvoice _ = pure tt

  unfoldable pub on_connectpeer : List Str → Exec Node (Unit {0})
  unfolding parse_peer_info connect_peer_if_necessary ◌>>=◌
  on_connectpeer [] = pure tt
  on_connectpeer (peer_info ∷ rest) =
      elim (parse_peer_info s.parsers.from_slice s.parsers.to_socket_addrs peer_info) [
        | ok (pubkey, peer_addr) ↦ connect_peer_if_necessary s.ldk pubkey peer_addr >> pure tt
        | err e ↦ pure tt
        | panic ↦ λ n. (panic, n)
      ]

  unfoldable pub on_disconnectpeer : List Str → Exec Node (Unit {0})
  unfolding do_disconnect_peer ◌>>=◌
  on_disconnectpeer [] = pure tt
  on_disconnectpeer (peer_pubkey ∷ rest) = elim (s.public_key peer_pubkey) [
    | some pubkey ↦ do_disconnect_peer s.ldk pubkey >> pure tt
    | none ↦ pure tt
  ]

  -- The commands that neither ask a question nor leave.
  unfoldable pub plain_command : Str → List Str → Exec Node (Unit {0})
  unfolding on_openchannel on_keysend on_getinvoice on_connectpeer on_disconnectpeer on_closechannel
      on_forceclosechannel tell
  plain_command word rest =
      if word == str "openchannel"
      then on_openchannel s.ldk s.parsers s.ldk_data_dir rest
      else if word == str "getaddress"
      then tell get_address
      else if word == str "keysend"
      then on_keysend rest
      else if word == str "getinvoice"
      then on_getinvoice rest
      else if word == str "connectpeer"
      then on_connectpeer rest
      else if word == str "disconnectpeer"
      then on_disconnectpeer rest
      else if word == str "closechannel"
      then on_closechannel s.ldk s.parsers rest
      else if word == str "forceclosechannel"
      then on_forceclosechannel s.ldk s.parsers rest
      else pure tt

  -- One round of the loop: the line that was read, empty at the end of the input, and `none` where
  -- `read_line` is an error.
  unfoldable pub poll_for_user_input :
      ℕ → Option Str → List (Option Str) → Exec Node (Flow × List (Option Str))
  unfolding words on_sendpayment plain_command ◌>>=◌
  poll_for_user_input rounds none input = pure (leave, input)
  poll_for_user_input rounds (some line) input =
      if is_empty line then pure (leave, input) else elim (words line) [
        | [] ↦ pure (next_command, input)
        | word ∷ rest ↦
            if word == str "sendpayment"
            then on_sendpayment rounds line input rest
            else if word == str "quit" || word == str "exit"
            then pure (leave, input)
            else plain_command word rest >> pure (next_command, input)
      ]
