-- ===== src/Sideband/Calls.antt =====
-- Sequences of calls for one kind of sideband device: notifications of the system, and rounds
-- of the work item's loop between them.
use inferno_windows.Prelude.{Bool, List, [], ◌∷◌, ℕ}
use inferno_windows.Sideband.{Manager, Event, Answers, interface_change, run_first}

pub data Call : Type 0 where
  change : Bool → Event → Answers → List ℕ → Call
  round : Call

unfoldable pub step : Call → Manager → Manager
step (change same_class e a name) m = (interface_change same_class e a name m).1
step round m = run_first m.tasks m

unfoldable pub run_calls : List Call → Manager → Manager
run_calls [] m = m
run_calls (c ∷ cs) m = run_calls cs (step c m)
