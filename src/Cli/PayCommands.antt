-- ===== src/Cli/PayCommands.antt =====
-- The records and their files through the commands that pay and ask to be paid.
use programming_lightning_bu.Base.{ℕ, Str, Option, none, some, List, [], ◌∷◌, list_eq, nat_eq}
use programming_lightning_bu.Exec.{Exec, ◌>>=◌, ◌>>◌, pure}
use programming_lightning_bu.Payments.{Bytes}
use programming_lightning_bu.Text.{parse_uint, u64_max, u32_max}
use programming_lightning_bu.HexUtils.{to_compressed_pubkey}
use programming_lightning_bu.Node.{Node, command_line, persist_inbound}
use programming_lightning_bu.Node.Durable.{IsDurable, TakesNames}
use programming_lightning_bu.Cli.Durability.{keysend-IsDurable, send_payment-IsDurable}
use programming_lightning_bu.Cli.Saves.{
  Saves, bind-Saves, then-Saves, get_invoice-Saves, pay_offer-Saves,
}
use programming_lightning_bu.Cli.Offer.{Amount, pay_offer}
use programming_lightning_bu.Cli.Pay.{get_invoice, Invoice, send_payment, keysend}
use programming_lightning_bu.Cli.Commands.{
  Setup, Flow, next_command, flow_of, user_amount, on_sendpayment, on_keysend, on_getinvoice,
}

module _ (s : Setup) (names : TakesNames s.ldk) (n : Node) (d : IsDurable s.ldk n) where
  abbrev Kept : {A : Type 0} → Exec Node A → Type 0
  Kept m = Saves s.ldk names n m

  pub sendpayment-Kept :
      (rounds : ℕ) (line : Str) (input : List (Option Str)) (rest : List Str)
      → Kept (on_sendpayment s rounds line input rest)
  unfolding on_sendpayment
  sendpayment-Kept rounds line input [] = λ b e. d
  sendpayment-Kept rounds line input (invoice_str ∷ rest) = go (user_amount rest)
    where
      invoiced :
          (user : Option ℕ) (o : Option Invoice)
          → Kept (elim o as (λ _. Exec Node (Flow × List (Option Str))) [
            | some i ↦ send_payment s.ldk s.router i user >> pure (next_command, input)
            | none ↦ pure (next_command, input)
          ])
      invoiced user (some i) =
          then-Saves s.ldk names (send_payment s.ldk s.router i user) (next_command, input) n
            (λ b e. send_payment-IsDurable s.ldk names s.router i user n d e)
      invoiced user none = λ b e. d

      offered_or :
          (user : Option ℕ) (o : Option (Bytes × Amount))
          → Kept (elim o as (λ _. Exec Node (Flow × List (Option Str))) [
            | some (offer, offered) ↦ do
              (r, input') ← pay_offer s.ldk rounds line input offer offered user (s.random n.calls)
              pure (flow_of r, input')
            | none ↦ elim (s.invoice invoice_str) [
              | some i ↦ send_payment s.ldk s.router i user >> pure (next_command, input)
              | none ↦ pure (next_command, input)
            ]
          ])
      offered_or user (some (offer, offered)) =
          let paid = pay_offer s.ldk rounds line input offer offered user (s.random n.calls) in
          bind-Saves s.ldk names paid (λ (r, input'). pure (flow_of r, input')) n
            (λ a e _ _.
              pay_offer-Saves s.ldk names rounds line input offer offered user (s.random n.calls) n
                d a e)
      offered_or user none = invoiced user (s.invoice invoice_str)

      go :
          (o : Option (Option ℕ))
          → Kept (elim o as (λ _. Exec Node (Flow × List (Option Str))) [
            | none ↦ pure (next_command, input)
            | some user ↦ elim (s.offer invoice_str) [
              | some (offer, offered) ↦ do
                (r, input') ←
                    pay_offer s.ldk rounds line input offer offered user (s.random n.calls)
                pure (flow_of r, input')
              | none ↦ elim (s.invoice invoice_str) [
                | some i ↦ send_payment s.ldk s.router i user >> pure (next_command, input)
                | none ↦ pure (next_command, input)
              ]
            ]
          ])
      go none = λ b e. d
      go (some user) = offered_or user (s.offer invoice_str)

  pub keysend-Kept : (words : List Str) → Kept (on_keysend s words)
  unfolding on_keysend
  keysend-Kept [] = λ b e. d
  keysend-Kept (dest ∷ []) = λ b e. d
  keysend-Kept (dest ∷ amt_msat_str ∷ rest) = go (to_compressed_pubkey s.parsers.from_slice dest)
    where
      paid :
          (key : Bytes) (o : Option ℕ)
          → Kept (elim o as (λ _. Exec Node (Unit {0})) [
            | none ↦ pure tt
            | some amt_msat ↦ keysend s.ldk s.sha256 key amt_msat (s.random n.calls)
          ])
      paid key none = λ b e. d
      paid key (some amt_msat) =
          λ b e. keysend-IsDurable s.ldk names s.sha256 key amt_msat (s.random n.calls) n d e

      go :
          (o : Option Bytes)
          → Kept (elim o as (λ _. Exec Node (Unit {0})) [
            | none ↦ pure tt
            | some dest_pubkey ↦ elim (parse_uint u64_max amt_msat_str) [
              | none ↦ pure tt
              | some amt_msat ↦ keysend s.ldk s.sha256 dest_pubkey amt_msat (s.random n.calls)
            ]
          ])
      go none = λ b e. d
      go (some key) = paid key (parse_uint u64_max amt_msat_str)

  pub getinvoice-Kept : (words : List Str) → Kept (on_getinvoice s words)
  unfolding on_getinvoice
  getinvoice-Kept [] = λ b e. d
  getinvoice-Kept (amt_str ∷ []) = λ b e. d
  getinvoice-Kept (amt_str ∷ expiry_secs_str ∷ rest) = go (parse_uint u64_max amt_str)
    where
      lasting :
          (amt_msat : ℕ) (o : Option ℕ)
          → Kept (elim o as (λ _. Exec Node (Unit {0})) [
            | none ↦ pure tt
            | some expiry_secs ↦
                get_invoice s.ldk s.router amt_msat expiry_secs
                >> persist_inbound s.ldk command_line
          ])
      lasting amt_msat none = λ b e. d
      lasting amt_msat (some expiry) = get_invoice-Saves s.ldk names s.router amt_msat expiry n d

      go :
          (o : Option ℕ)
          → Kept (elim o as (λ _. Exec Node (Unit {0})) [
            | none ↦ pure tt
            | some amt_msat ↦ elim (parse_uint u32_max expiry_secs_str) [
              | none ↦ pure tt
              | some expiry_secs ↦
                  get_invoice s.ldk s.router amt_msat expiry_secs
                  >> persist_inbound s.ldk command_line
            ]
          ])
      go none = λ b e. d
      go (some amt_msat) = lasting amt_msat (parse_uint u32_max expiry_secs_str)
