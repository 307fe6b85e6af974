-- ===== src/Cli/LineDurability.antt =====
-- The records and their files through a line of `poll_for_user_input`.
use programming_lightning_bu.Base.{
  none, some, Option, ℕ, ◌≡◌, Str, str, ◌||◌, List, [], ◌∷◌, ok, if◌then◌else◌, ◌==◌, list_eq,
  nat_eq, is_empty, Option, some,
}
use programming_lightning_bu.Exec.{Exec, ◌>>◌, pure}
use programming_lightning_bu.Text.{words}
use programming_lightning_bu.Node.{Node}
use programming_lightning_bu.Node.Durable.{IsDurable, TakesNames}
use programming_lightning_bu.Cli.Saves.{Saves, then-Saves, if-Saves}
use programming_lightning_bu.Cli.Commands.{
  Setup, Flow, next_command, leave, on_sendpayment, plain_command, poll_for_user_input,
}
use programming_lightning_bu.Cli.PayCommands.{sendpayment-Kept, keysend-Kept, getinvoice-Kept}
use programming_lightning_bu.Cli.PeerCommands.{
  connectpeer-Kept, disconnectpeer-Kept, close-Kept, force_close-Kept, openchannel-Kept,
  getaddress-Kept,
}

module _ (s : Setup) (names : TakesNames s.ldk) (n : Node) (d : IsDurable s.ldk n) where
  abbrev Kept : {A : Type 0} → Exec Node A → Type 0
  Kept m = Saves s.ldk names n m

  plain_command-Kept : (word : Str) (rest : List Str) → Kept (plain_command s word rest)
  unfolding plain_command
  plain_command-Kept word rest =
      if-Saves s.ldk names (word == str "openchannel") _ _ n (openchannel-Kept s names n d rest) (
        if-Saves s.ldk names (word == str "getaddress") _ _ n (getaddress-Kept s names n d) (
          if-Saves s.ldk names (word == str "keysend") _ _ n (keysend-Kept s names n d rest) (
            if-Saves s.ldk names (word == str "getinvoice") _ _ n (getinvoice-Kept s names n d rest)
              (if-Saves s.ldk names (word == str "connectpeer") _ _ n
                (connectpeer-Kept s names n d rest)
                (if-Saves s.ldk names (word == str "disconnectpeer") _ _ n
                  (disconnectpeer-Kept s names n d rest)
                  (if-Saves s.ldk names (word == str "closechannel") _ _ n
                    (close-Kept s names n d rest)
                    (if-Saves s.ldk names (word == str "forceclosechannel") _ _ n
                      (force_close-Kept s names n d rest) (λ b e. d))))))))

-- If both files hold the records in memory before a line of input and the round of the loop returns,
-- whatever the command is, its arguments and the answers of LDK, and also if no line can be read, both files hold the records that
-- are then in memory.
pub poll_for_user_input-IsDurable :
    (s : Setup) (names : TakesNames s.ldk) (n : Node) (rounds : ℕ) (line : Option Str)
    (input : List (Option Str)) (flow : Flow × List (Option Str))
    → IsDurable s.ldk n
    → (poll_for_user_input s rounds line input n).0 ≡ ok flow
    → IsDurable s.ldk (poll_for_user_input s rounds line input n).1
unfolding poll_for_user_input
poll_for_user_input-IsDurable s names n rounds none input flow d e = d
poll_for_user_input-IsDurable s names n rounds (some line) input flow d e =
    if-Saves s.ldk names (is_empty line) (pure (leave, input)) _ n (λ b e. d) (command (words line))
      flow e
  where
    command :
        (given : List Str)
        → Saves s.ldk names n (elim given as (λ _. Exec Node (Flow × List (Option Str))) [
          | [] ↦ pure (next_command, input)
          | word ∷ rest ↦
              if word == str "sendpayment"
              then on_sendpayment s rounds line input rest
              else if word == str "quit" || word == str "exit"
              then pure (leave, input)
              else plain_command s word rest >> pure (next_command, input)
        ])
    command [] = λ b e. d
    command (word ∷ rest) =
        if-Saves s.ldk names (word == str "sendpayment") _ _ n
          (sendpayment-Kept s names n d rounds line input rest)
          (if-Saves s.ldk names (word == str "quit" || word == str "exit") _ _ n (λ b e. d)
            (then-Saves s.ldk names (plain_command s word rest) (next_command, input) n
              (plain_command-Kept s names n d word rest)))
