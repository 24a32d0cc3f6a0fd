-- ===== src/Planning/State.antt =====
-- The types of the planning flow and its errors (workflow.ts, lines 27 to 39 and 238 to 266, and the
-- results of checklist.ts).
use gateloop.Base.{ℕ, String, Bool, Option, List}

-- PlanningWorkflowStage.
pub record Stage : Type 0 where
  pub id : String
  pub name : String
  pub desc : String
  pub skill : Option String

pub record PlanningWorkflowConfig : Type 0 where
  pub mode : String
  pub label : String
  pub stages : List Stage

pub record Directive : Type 0 where
  pub type : String
  pub arg : String

pub record ChecklistItem : Type 0 where
  pub id : String
  pub text : String
  pub directive : Option Directive
  pub evaluable : Bool
  pub pass : Bool

pub record ChecklistResult : Type 0 where
  pub items : List ChecklistItem
  pub passed : ℕ
  pub total : ℕ
  pub complete : Bool

pub data StageStatus : Type 0 where
  todo active done : StageStatus

pub record PlanningFlowState : Type 0 where
  pub mode : String
  pub label : String
  pub stages : List Stage
  pub statuses : List StageStatus
  pub checklists : List (Option ChecklistResult)

-- FlowStageSnapshot. A status or a checklist that the arrays do not have is `none`.
pub record FlowStageSnapshot : Type 0 where
  pub stage : Stage
  pub status : Option StageStatus
  pub checklist_passed : Option ℕ
  pub checklist_total : Option ℕ

-- PlanningWorkflowStateError by what its text says; `type_error` is the TypeError of reading the id of
-- a stage that is not there.
pub data FlowError : Type 0 where
  zero_stages out_of_range already_active already_done : FlowError
  predecessor_not_done already_complete barrier_failed type_error : FlowError
