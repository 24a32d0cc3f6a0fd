-- ===== src/Planning/Gate.antt =====
-- The advance that waits for a complete checklist (workflow.ts, lines 473 to 538, and the counts of
-- `evaluateChecklist`, checklist.ts, lines 154 to 156). A checklist written beyond the end of the
-- checklists changes nothing, which needs a state with more stages than checklists.
use mathlib.Core.Option
use gateloop.Base.{
  ℕ, ◌+◌, String, Bool, true, false, not, ◌&&◌, Option, none, some, List, [], length, get_elem?,
  set, filter, ltb, ◌==◌, if◌then◌else◌,
}
use gateloop.Base.Integers.{ℤ, pos, negsuc}
use gateloop.Base.Result.{Result, ok, err, ◌>>=◌}
use gateloop.Planning.State.{
  Stage, ChecklistItem, ChecklistResult, PlanningFlowState, FlowError, out_of_range,
  already_complete, type_error,
}
use gateloop.Planning.Flow.{active_index, advance}

-- What `evaluateChecklist` returns for the evaluated items.
abbrev pub counted : List ChecklistItem → ChecklistResult
counted items =
    let passed = length (filter (λ (i : ChecklistItem). i.pass) items) in
    let total = length items in
    record {
      items = items;
      passed = passed;
      total = total;
      complete = ltb 0 total && passed == total;
    }

pub record GatedAdvanceResult : Type 0 where
  pub advanced : Bool
  pub from : String
  pub to : Option String
  pub state : PlanningFlowState
  pub checklist : ChecklistResult
  pub failing_items : List ChecklistItem

unfoldable pub set_stage_checklist :
    PlanningFlowState → ℤ → ChecklistResult → Result FlowError PlanningFlowState
set_stage_checklist state (negsuc k) result = err out_of_range
set_stage_checklist state (pos i) result =
    if ltb i (length state.stages)
    then ok (record state { checklists = set state.checklists i (some result) })
    else err out_of_range

abbrev pub stage_id : Option Stage → Result FlowError String
stage_id none = err type_error
stage_id (some s) = ok s.id

abbrev pub failing : ChecklistResult → List ChecklistItem
failing result = filter (λ (i : ChecklistItem). not i.pass) result.items

abbrev pub refused_result : String → PlanningFlowState → ChecklistResult → GatedAdvanceResult
refused_result from recorded result = record {
  advanced = false;
  from = from;
  to = none;
  state = recorded;
  checklist = result;
  failing_items = failing result;
}

abbrev pub advanced_result : ℕ → String → PlanningFlowState → ChecklistResult → GatedAdvanceResult
advanced_result i from state result = record {
  advanced = true;
  from = from;
  to = Option.map (λ (s : Stage). s.id) (get_elem? state.stages (i + 1));
  state = state;
  checklist = result;
  failing_items = [];
}

abbrev pub advance_complete :
    Bool → ℕ → String → PlanningFlowState → ChecklistResult → Result FlowError GatedAdvanceResult
advance_complete false i from recorded result = ok (refused_result from recorded result)
advance_complete true i from recorded result =
    advance recorded >>= λ state. ok (advanced_result i from state result)

abbrev gated_from :
    PlanningFlowState → ChecklistResult → Option ℕ → Result FlowError GatedAdvanceResult
gated_from state result none = err already_complete
gated_from state result (some i) = do
  from ← stage_id (get_elem? state.stages i)
  recorded ← set_stage_checklist state (pos i) result
  advance_complete result.complete i from recorded result

unfoldable pub advance_gated :
    PlanningFlowState → ChecklistResult → Result FlowError GatedAdvanceResult
advance_gated state result = gated_from state result (active_index state)
