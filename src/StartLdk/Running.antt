-- ===== src/StartLdk/Running.antt =====
-- The node of src/main.rs between its start and its end: the background processor hands events to the
-- handler and the command line takes lines, each holding the lock of the records while it changes
-- them.
use programming_lightning_bu.Base.{Str, ℕ, List, [], ◌∷◌, Option}
use programming_lightning_bu.Exec.{Exec, pure, ◌>>=◌, ◌>>◌}
use programming_lightning_bu.Node.{Node}
use programming_lightning_bu.Events.{Context, Event, handle_ldk_events}
use programming_lightning_bu.Cli.Commands.{
  Setup, Flow, next_command, leave, still_asking, poll_for_user_input,
}

-- What happens next. A line comes with the lines that a question reads after it, and with the rounds
-- that are left for its answers; `none` is a line that cannot be read.
pub data Activity : Type 0 where
  event : Context → Event → Activity
  line : ℕ → Option Str → List (Option Str) → Activity

-- The loop goes on, or the rounds ran out inside a question.
abbrev pub on_flow : Flow → Exec Node (Unit {0}) → Exec Node (Unit {0})
on_flow next_command m = m
on_flow leave m = pure tt
on_flow still_asking m = pure tt

-- Until the command line is left or one of the two panics.
unfoldable pub run : Setup → List Activity → Exec Node (Unit {0})
unfolding handle_ldk_events poll_for_user_input ◌>>=◌
run s [] = pure tt
run s (event c e ∷ activities) = handle_ldk_events s.ldk c e >> run s activities
run s (line rounds text input ∷ activities) = do
  (flow, left) ← poll_for_user_input s rounds text input
  on_flow flow (run s activities)
