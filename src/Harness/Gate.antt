-- ===== src/Harness/Gate.antt =====
-- Human gates and the single step (index.ts, lines 361 to 405 and 1198 to 1201). `regex_test` is the
-- runtime's `new RegExp(source).test(text)`, `none` where the constructor throws.
pub mod Human
use mathlib.Core.Option
use gateloop.Base.{
  ℕ, zero, suc, ◌≤◌, ◌<◌, String, Bool, true, false, not, ◌&&◌, Option, none, some, List, [], ◌∷◌,
  ◌++◌, ◌≡◌, refl, sym, ap, ◌∙◌, ◌≢◌, ◌↔◌, ◌⊎◌, inl, inr, arith, All, ltb, if◌then◌else◌,
  Bool-cases, subst,
}
use gateloop.Base.Text.{codes, starts_with, replace_all}
use gateloop.Harness.State.{
  StoryRecord, RunBudget, HarnessState, idea_inbox, planning_bundle, supervisor_contract,
  developer_patch_proposal, developer_preflight, spec_conformance_review, workspace_apply,
  validation, debug_loop, checkpoint, human_gate, promotion_review, finished, OrchestratorAction,
  run_bootstrap, select_story, issue_contract, request_patch, apply_patch, run_validation,
  route_debugger, retry_develop, write_checkpoint, escalate_human, rollback_workspace,
  mark_story_done, stop_run, HumanGateReason, scope_expansion, attempt_budget_exceeded,
  systemic_failure, promotion, within_attempts, within_run,
}

abbrev double_star_mark : List ℕ
double_star_mark = codes "___DSTAR___"

-- The text of the regular expression that `matchesGlob` makes of a pattern.
unfoldable pub glob_source : List ℕ → List ℕ
glob_source pattern =
    let marked = replace_all (codes "**") double_star_mark 0 pattern in
    let segments = replace_all (codes "*") (codes "[^/]*") 0 marked in
    (94 ∷ []) ++ (replace_all double_star_mark (codes ".*") 0 segments ++ (36 ∷ []))

pub record GateContext : Type 0 where
  pub changed_files : Option (List String)
  pub allowed_write_set : Option (List String)
  pub is_promotion : Bool

abbrev is_systemic : Option String → Bool
is_systemic none = false
is_systemic (some reason) = starts_with (codes "systemic_failure") (codes reason)

abbrev pub systemic_reason : StoryRecord → Option HumanGateReason
systemic_reason story = if is_systemic story.blocked_reason then some systemic_failure else none

pub record TickInput : Type 0 where
  pub state : HarnessState
  pub story : StoryRecord
  pub run_budget : RunBudget
  pub last_validation_passed : Option Bool
  pub human_gate_cleared : Bool

abbrev validated : Option Bool → StoryRecord → OrchestratorAction
validated none story = run_validation
validated (some true) story = write_checkpoint
validated (some false) story = if within_attempts story then route_debugger else escalate_human

abbrev act : HarnessState → TickInput → OrchestratorAction
act supervisor_contract input = issue_contract
act developer_patch_proposal input = request_patch
act workspace_apply input = apply_patch
act validation input = validated input.last_validation_passed input.story
act debug_loop input = if within_attempts input.story then retry_develop else escalate_human
act checkpoint input = mark_story_done
act human_gate input = if input.human_gate_cleared then select_story else stop_run
act promotion_review input = escalate_human
act _ input = stop_run

unfoldable pub tick : TickInput → OrchestratorAction
tick input = if within_run input.run_budget then act input.state input else stop_run

-- A story is worked on again.
abbrev pub Repairs : OrchestratorAction → Type 0
Repairs a = (a ≡ route_debugger) ⊎ (a ≡ retry_develop)

-- The step sends a story to the debugger or back to the developer only after a failed validation or
-- in the debug loop, and only while an attempt and an iteration are left.
pub repair_in_budget :
    (input : TickInput)
    → Repairs (tick input)
    → (input.story.attempts < input.story.attempt_budget)
      × (input.run_budget.iterations_used < input.run_budget.run_iteration_budget)
      × (((input.state ≡ validation) × (input.last_validation_passed ≡ some false))
          ⊎ (input.state ≡ debug_loop))
unfolding tick
repair_in_budget input (inl e) = ((ground arith), (ground arith), (ground arith))
repair_in_budget input (inr e) = ((ground arith), (ground arith), (ground arith))

-- A checkpoint is written exactly in the validation state, after a validation that passed, while an
-- iteration is left.
pub checkpoint_iff :
    (input : TickInput)
    → (tick input ≡ write_checkpoint) ↔ (
        (input.state ≡ validation)
        × (input.last_validation_passed ≡ some true)
        × (input.run_budget.iterations_used < input.run_budget.run_iteration_budget))
unfolding tick
checkpoint_iff input =
    ((λ e. ((ground arith), (ground arith), (ground arith))), (λ (s, v, b). ground arith))
