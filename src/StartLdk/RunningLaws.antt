-- ===== src/StartLdk/RunningLaws.antt =====
-- The payment records while the node runs, and over a restart.
use programming_lightning_bu.Base.{◌≡◌, sym, ap, ◌∙◌, List, [], ◌∷◌, ok, subst}
use programming_lightning_bu.Exec.{Exec, >>=-eq-ok}
use programming_lightning_bu.Node.{Ldk, Node, Call}
use programming_lightning_bu.Node.Durable.{IsDurable, TakesNames}
use programming_lightning_bu.Events.{handle_ldk_events}
use programming_lightning_bu.Events.Durability.{handle_ldk_events-IsDurable}
use programming_lightning_bu.Cli.Commands.{
  Setup, Flow, next_command, leave, still_asking, poll_for_user_input,
}
use programming_lightning_bu.Cli.LineDurability.{poll_for_user_input-IsDurable}
use programming_lightning_bu.StartLdk.Prepare.{Saved}
use programming_lightning_bu.StartLdk.RecordsLaws.{
  outcome, ReadsBack, Unhindered, Resumed, IsDurable-Resumed,
}
use programming_lightning_bu.StartLdk.Running.{Activity, event, line, run, on_flow}

on_flow-IsDurable :
    (l : Ldk) (flow : Flow) (m : Exec Node (Unit {0})) (n : Node)
    → IsDurable l n
    → ((m n).0 ≡ ok tt → IsDurable l (m n).1)
    → (on_flow flow m n).0 ≡ ok tt
    → IsDurable l (on_flow flow m n).1
on_flow-IsDurable l next_command m n d goes_on done = goes_on done
on_flow-IsDurable l leave m n d goes_on done = d
on_flow-IsDurable l still_asking m n d goes_on done = d

-- If the files hold the records at first, they do after any sequence of events and lines that ends
-- without a panic.
pub run-IsDurable :
    (s : Setup) (names : TakesNames s.ldk) (activities : List Activity) (n : Node)
    → IsDurable s.ldk n
    → (run s activities n).0 ≡ ok tt
    → IsDurable s.ldk (run s activities n).1
unfolding run
run-IsDurable s names [] n d e = d
run-IsDurable s names (event c e ∷ activities) n d done =
    let (x, handled, rest) =
      >>=-eq-ok (handle_ldk_events s.ldk c e) (λ _. run s activities) n done in
    let n' = (handle_ldk_events s.ldk c e n).1 in
    subst (λ r. IsDurable s.ldk r.1) (sym rest)
      (run-IsDurable s names activities n' (handle_ldk_events-IsDurable s.ldk names c e n d handled)
        (ap outcome (sym rest) ∙ done))
run-IsDurable s names (line rounds text input ∷ activities) n d done =
    let (flow, taken, rest) = >>=-eq-ok (poll_for_user_input s rounds text input) _ n done in
    let n' = (poll_for_user_input s rounds text input n).1 in
    let d' = poll_for_user_input-IsDurable s names n rounds text input flow d taken in
    subst (λ r. IsDurable s.ldk r.1) (sym rest)
      (on_flow-IsDurable s.ldk flow.0 (run s activities) n' d'
        (run-IsDurable s names activities n' d') (ap outcome (sym rest) ∙ done))

-- Let both files hold the records at first, any sequence of events and lines end without a panic, no
-- directory or special file lie where the next start writes, and LDK read back what it encoded. Then
-- the next start, on the files as they were left and with no failing call, returns with the inbound
-- records as they last were in memory and with every outbound record as it was, except that a pending
-- one whose id LDK does not list has failed, and both files hold that.
pub run-restart :
    (s : Setup) (names : TakesNames s.ldk) (saved : Saved) (activities : List Activity) (n : Node)
    (calls : List Call)
    → ReadsBack s.ldk saved (run s activities n).1
    → IsDurable s.ldk n
    → (run s activities n).0 ≡ ok tt
    → Unhindered (run s activities n).1
    → Resumed s.ldk saved (run s activities n).1 calls
run-restart s names saved activities n calls back d ended way =
    let left = (run s activities n).1 in
    IsDurable-Resumed s.ldk names saved left back (run-IsDurable s names activities n d ended) calls
      way
