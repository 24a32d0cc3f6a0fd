-- ===== src/Planning/Flow.antt =====
-- The state machine (workflow.ts, lines 272 to 365). A status written beyond the end of the statuses, which
-- extends the source's array, changes nothing here: it needs a state with more stages than statuses.
use mathlib.Core.Option
use gateloop.Base.{
  ℕ, suc, ◌+◌, Bool, true, false, Option, none, some, List, [], ◌∷◌, map, length, get_elem?, set,
  take, all, ltb, if◌then◌else◌, ◌&&◌,
}
use gateloop.Base.Integers.{ℤ, pos, negsuc}
use gateloop.Base.Result.{Result, ok, err}
use gateloop.Planning.State.{
  Stage, PlanningWorkflowConfig, ChecklistResult, StageStatus, todo, active, done,
  PlanningFlowState, FlowStageSnapshot, FlowError, zero_stages, out_of_range, already_active,
  already_done, predecessor_not_done, already_complete,
}

abbrev pub is_todo : StageStatus → Bool
is_todo todo = true
is_todo _ = false

abbrev pub is_active : StageStatus → Bool
is_active active = true
is_active _ = false

abbrev pub is_done : StageStatus → Bool
is_done done = true
is_done _ = false

abbrev pub initial_statuses : List Stage → List StageStatus
initial_statuses [] = []
initial_statuses (s ∷ stages) = active ∷ map (λ _. todo) stages

abbrev pub init_from : PlanningWorkflowConfig → List Stage → Result FlowError PlanningFlowState
init_from config [] = err zero_stages
init_from config (s ∷ stages) = ok (record {
  mode = config.mode;
  label = config.label;
  stages = s ∷ stages;
  statuses = initial_statuses (s ∷ stages);
  checklists = map (λ _. none) (s ∷ stages);
})

unfoldable pub init_flow_state : PlanningWorkflowConfig → Result FlowError PlanningFlowState
init_flow_state config = init_from config config.stages

-- `list?.[i] ?? null` of a list that may hold null.
abbrev pub recorded {ℓ} : {A : Type ℓ} → Option (Option A) → Option A
recorded none = none
recorded (some o) = o

abbrev pub snapshot_at : Stage → Option StageStatus → Option ChecklistResult → FlowStageSnapshot
snapshot_at s status checklist = record {
  stage = s;
  status = status;
  checklist_passed = Option.map (λ (c : ChecklistResult). c.passed) checklist;
  checklist_total = Option.map (λ (c : ChecklistResult). c.total) checklist;
}

abbrev pub snapshots_from : ℕ → PlanningFlowState → List Stage → List FlowStageSnapshot
snapshots_from i state [] = []
snapshots_from i state (s ∷ stages) =
    snapshot_at s (get_elem? state.statuses i) (recorded (get_elem? state.checklists i))
    ∷ snapshots_from (suc i) state stages

unfoldable pub flow_snapshot : PlanningFlowState → List FlowStageSnapshot
flow_snapshot state = snapshots_from 0 state state.stages

abbrev pub index_of_active : List StageStatus → Option ℕ
index_of_active [] = none
index_of_active (s ∷ statuses) =
    let rest = index_of_active statuses in if is_active s then some 0 else Option.map suc rest

-- `none` for −1.
unfoldable pub active_index : PlanningFlowState → Option ℕ
active_index state = index_of_active state.statuses

unfoldable pub is_complete : PlanningFlowState → Bool
is_complete state = all is_done state.statuses

abbrev pub todo_at : List StageStatus → ℕ → Bool
todo_at statuses i = elim (get_elem? statuses i) [ none ↦ false | some s ↦ is_todo s ]

unfoldable pub can_activate : PlanningFlowState → ℤ → Bool
can_activate state (negsuc k) = false
can_activate state (pos i) =
    if ltb i (length state.stages)
    then todo_at state.statuses i && all is_done (take i state.statuses)
    else false

abbrev pub activate_unless :
    PlanningFlowState → ℕ → Option StageStatus → Result FlowError PlanningFlowState
activate_unless state i (some active) = err already_active
activate_unless state i (some done) = err already_done
activate_unless state i _ =
    if all is_done (take i state.statuses)
    then ok (record state { statuses = set state.statuses i active })
    else err predecessor_not_done

unfoldable pub activate_stage : PlanningFlowState → ℤ → Result FlowError PlanningFlowState
activate_stage state (negsuc k) = err out_of_range
activate_stage state (pos i) =
    if ltb i (length state.stages)
    then activate_unless state i (get_elem? state.statuses i)
    else err out_of_range

-- The stage `i` done, and the next one active where there is one.
abbrev pub advanced_statuses : List StageStatus → ℕ → List StageStatus
advanced_statuses statuses i =
    let marked = set statuses i done in
    if ltb (i + 1) (length marked) then set marked (i + 1) active else marked

abbrev advance_from : PlanningFlowState → Option ℕ → Result FlowError PlanningFlowState
advance_from state none = err already_complete
advance_from state (some i) = ok (record state { statuses = advanced_statuses state.statuses i })

unfoldable pub advance : PlanningFlowState → Result FlowError PlanningFlowState
advance state = advance_from state (active_index state)
