-- ===== src/Harness/State.antt =====
-- The types of the harness and its table of legal transitions (index.ts, lines 30 to 129).
use gateloop.Base.{ℕ, String, Bool, Option, List, [], ◌∷◌, any, ltb, ◌==◌, if◌then◌else◌}
use gateloop.Base.Result.{Result, ok, err}

pub data StoryStatus : Type 0 where
  todo in_progress validating debugging passed checkpointed blocked escalated done : StoryStatus

pub data HarnessState : Type 0 where
  idea_inbox planning_bundle supervisor_contract developer_patch_proposal : HarnessState
  developer_preflight spec_conformance_review workspace_apply validation : HarnessState
  debug_loop checkpoint human_gate promotion_review finished : HarnessState

pub data OrchestratorAction : Type 0 where
  run_bootstrap select_story issue_contract request_patch apply_patch : OrchestratorAction
  run_validation route_debugger retry_develop write_checkpoint escalate_human : OrchestratorAction
  rollback_workspace mark_story_done stop_run : OrchestratorAction

pub data HumanGateReason : Type 0 where
  scope_expansion attempt_budget_exceeded run_budget_exceeded systemic_failure : HumanGateReason
  stable_mutation promotion first_enable_provider policy_change : HumanGateReason
  sudo_or_irreversible : HumanGateReason

-- TRANSITIONS; `finished` is 'DONE'.
abbrev pub transitions : HarnessState → List HarnessState
transitions idea_inbox = planning_bundle ∷ []
transitions planning_bundle = supervisor_contract ∷ []
transitions supervisor_contract = developer_patch_proposal ∷ []
transitions developer_patch_proposal = developer_preflight ∷ human_gate ∷ []
transitions developer_preflight =
    spec_conformance_review ∷ developer_patch_proposal ∷ human_gate ∷ []
transitions spec_conformance_review = workspace_apply ∷ developer_patch_proposal ∷ human_gate ∷ []
transitions workspace_apply = validation ∷ []
transitions validation = debug_loop ∷ checkpoint ∷ human_gate ∷ []
transitions debug_loop = developer_patch_proposal ∷ supervisor_contract ∷ human_gate ∷ []
transitions checkpoint = promotion_review ∷ supervisor_contract ∷ []
transitions human_gate = supervisor_contract ∷ checkpoint ∷ finished ∷ []
transitions promotion_review = finished ∷ human_gate ∷ []
transitions finished = []

-- The place of a state in the declaration, by which two states are compared.
abbrev state_code : HarnessState → ℕ
state_code idea_inbox = 0
state_code planning_bundle = 1
state_code supervisor_contract = 2
state_code developer_patch_proposal = 3
state_code developer_preflight = 4
state_code spec_conformance_review = 5
state_code workspace_apply = 6
state_code validation = 7
state_code debug_loop = 8
state_code checkpoint = 9
state_code human_gate = 10
state_code promotion_review = 11
state_code finished = 12

abbrev pub same_state : HarnessState → HarnessState → Bool
same_state s t = state_code s == state_code t

unfoldable pub can_transition : HarnessState → HarnessState → Bool
can_transition from to = any (λ s. same_state s to) (transitions from)

pub data PreflightVerdict : Type 0 where
  submit self_correct escalate : PreflightVerdict

abbrev pub verdict_target : PreflightVerdict → HarnessState
verdict_target submit = spec_conformance_review
verdict_target self_correct = developer_patch_proposal
verdict_target escalate = human_gate

-- The error is the Error of an illegal transition, with its target.
unfoldable pub preflight_verdict_to_state : PreflightVerdict → Result HarnessState HarnessState
unfolding can_transition
preflight_verdict_to_state verdict =
    let to = verdict_target verdict in
    if can_transition developer_preflight to then ok to else err to

pub data ParallelismClass : Type 0 where
  parallel_safe parallel_with_barrier sequential exclusive : ParallelismClass

pub record StoryRecord : Type 0 where
  pub story_id : String
  pub epic_id : String
  pub depends_on : List String
  pub parallelism_class : ParallelismClass
  pub status : StoryStatus
  pub attempts : ℕ
  pub attempt_budget : ℕ
  pub branch : Option String
  pub last_action : Option String
  pub last_result : Option String
  pub last_validation : Option String
  pub blocked_reason : Option String

pub record RunBudget : Type 0 where
  pub run_iteration_budget : ℕ
  pub iterations_used : ℕ

-- True for 'ok'.
abbrev pub within_attempts : StoryRecord → Bool
within_attempts story = ltb story.attempts story.attempt_budget

abbrev pub within_run : RunBudget → Bool
within_run budget = ltb budget.iterations_used budget.run_iteration_budget
