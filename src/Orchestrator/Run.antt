-- ===== src/Orchestrator/Run.antt =====
-- The loop of a run: one tick decides, executes and advances
-- (docs/architecture/12_RUNTIME_ALGORITHM_RULES.md, section 1). What executing an action returns is
-- the environment's choice, given as a list with one result for each tick.
pub mod Stop
pub mod Done
pub mod Attempts
pub mod Active
pub mod Lifecycle
use gateloop.Base.{String, Ordering, List, [], ◌∷◌}
use gateloop.Orchestrator.State.{TrackerState, ActionResult}
use gateloop.Orchestrator.Decide.{decide_next_action}
use gateloop.Orchestrator.Advance.{advance_tracker_state}

module _ (locale_compare : String → String → Ordering) where
  unfoldable pub tick : TrackerState → ActionResult → TrackerState
  tick s r = advance_tracker_state s (decide_next_action locale_compare s) r

  unfoldable pub run : TrackerState → List ActionResult → TrackerState
  run s [] = s
  run s (r ∷ rs) = run (tick s r) rs
