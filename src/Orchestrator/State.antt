-- ===== src/Orchestrator/State.antt =====
-- The types of orchestrator-v0.ts, lines 19 to 93. An absent or null field is `none`; the counters,
-- budgets and priorities are natural numbers.
use gateloop.Base.{ℕ, String, Bool, true, false, Option, List}

pub data OrchestratorV0State : Type 0 where
  idle select contract develop validate debug checkpoint gate stopped : OrchestratorV0State

pub data RuntimeStoryStatus : Type 0 where
  todo ready in_progress validating debugging passed checkpointed blocked escalated done :
      RuntimeStoryStatus

pub record RuntimeStory : Type 0 where
  pub story_id : String
  pub epic_id : String
  pub depends_on : List String
  pub status : RuntimeStoryStatus
  pub priority : ℕ
  pub order_index : ℕ
  pub attempts : ℕ
  pub attempt_budget : ℕ
  pub allowed_write_set : List String
  pub validation_commands : List String
  pub rollback_notes : String
  pub blocked_reason : Option String

pub data OrchestratorV0Action : Type 0 where
  select_next_story issue_contract develop_patch run_validation write_checkpoint mark_story_done
        route_debugger retry_develop escalate_human stop_run :
      OrchestratorV0Action

pub record RuntimeDecision : Type 0 where
  pub action : OrchestratorV0Action
  pub story_id : Option String
  pub reason : Option String
  pub tick : ℕ

pub record TrackerState : Type 0 where
  pub run_id : String
  pub state : OrchestratorV0State
  pub run_iteration_budget : ℕ
  pub iterations_used : ℕ
  pub stories : List RuntimeStory
  pub active_story_id : Option String
  pub last_validation_passed : Option Bool
  pub human_gate_cleared : Bool
  pub stop_reason : Option String
  pub decision_log : List RuntimeDecision

pub record ActionResult : Type 0 where
  pub success : Bool
  pub validation_passed : Option Bool
  pub error : Option String

-- `status === 'done'`, and the other tests of a status.
abbrev pub is_done : RuntimeStoryStatus → Bool
is_done done = true
is_done _ = false

abbrev pub is_waiting : RuntimeStoryStatus → Bool
is_waiting todo = true
is_waiting ready = true
is_waiting _ = false

abbrev pub is_stuck : RuntimeStoryStatus → Bool
is_stuck blocked = true
is_stuck escalated = true
is_stuck _ = false
