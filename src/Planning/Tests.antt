-- ===== src/Planning/Tests.antt =====
-- A flow of two stages, and the theorems at it.
use gateloop.Base.{min, String, Bool, true, false, not, none, some, List, [], ◌∷◌, ◌≡◌, refl}
use gateloop.Base.Integers.{pos}
use gateloop.Base.Result.{ok, threw}
use gateloop.Planning.State.{
  Stage, PlanningWorkflowConfig, ChecklistItem, ChecklistResult, todo, active, done,
  PlanningFlowState,
}
use gateloop.Planning.Flow.{
  init_flow_state, can_activate, activate_stage, advance, active_index, flow_snapshot,
}
use gateloop.Planning.Gate.{counted, advance_gated, set_stage_checklist, GatedAdvanceResult}
use gateloop.Planning.Order.{at, activates_where_allowed, advance-at}
use gateloop.Planning.Barrier.{assert_stage_ordering_barrier}
use gateloop.Planning.Barrier.Laws.{barrier_holds, held}
use gateloop.Planning.Gated.{
  FlowCall, call_advance, call_activate, call_gated, perform_all, advancing, Reaches, flow-Reaches,
}

program : Unit {0}
unfolding init_flow_state can_activate activate_stage advance active_index flow_snapshot
    advance_gated set_stage_checklist
program = tt

abbrev stage : String → Stage
stage id = record { id = id; name = id; desc = "d"; skill = none }

abbrev config : PlanningWorkflowConfig
config = record { mode = "m"; label = "l"; stages = stage "brief" ∷ stage "prd" ∷ [] }

abbrev start : PlanningFlowState
start = record {
  mode = "m";
  label = "l";
  stages = stage "brief" ∷ stage "prd" ∷ [];
  statuses = active ∷ todo ∷ [];
  checklists = none ∷ none ∷ [];
}

abbrev item : Bool → ChecklistItem
item pass = record { id = "item-1"; text = "t"; directive = none; evaluable = true; pass = pass }

starts : init_flow_state config ≡ ok start
unfolding program
starts = refl

abbrev calls : List FlowCall
calls =
    call_gated (counted (item false ∷ []))
    ∷ call_activate (pos 1)
    ∷ call_gated (counted (item true ∷ []))
    ∷ call_advance
    ∷ call_advance
    ∷ []

flow-Reaches_example : Reaches config.stages (min (advancing calls) 2) (perform_all start calls)
flow-Reaches_example = flow-Reaches config start calls starts

barrier_holds_example : assert_stage_ordering_barrier config ≡ ok held
barrier_holds_example = barrier_holds config

abbrev unordered : PlanningFlowState
unordered = record start { statuses = done ∷ todo ∷ [] }

allowed : can_activate unordered (pos 1) ≡ true
unfolding program
allowed = refl

activates_where_allowed_example :
    threw (activate_stage unordered (pos 1)) ≡ not (can_activate unordered (pos 1))
activates_where_allowed_example = activates_where_allowed unordered (pos 1) refl

advance-at_example : advance start ≡ ok (at 1 start)
advance-at_example = advance-at 0 start refl

abbrev passing : ChecklistResult
passing = counted (item true ∷ [])

abbrev advanced_one : GatedAdvanceResult
advanced_one = record {
  advanced = true;
  from = "brief";
  to = some "prd";
  state = record start { statuses = done ∷ active ∷ []; checklists = some passing ∷ none ∷ [] };
  checklist = passing;
  failing_items = [];
}

gated_one : advance_gated start passing ≡ ok advanced_one
unfolding program
gated_one = refl
