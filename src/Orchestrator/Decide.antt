-- ===== src/Orchestrator/Decide.antt =====
-- `decideNextAction` (orchestrator-v0.ts, lines 145 to 239): one decision for each state.
pub mod Laws
pub mod Cause
pub mod Stuck
use gateloop.Base.{
  ℕ, String, Bool, true, false, Option, none, some, List, [], ◌∷◌, Ordering, str_eq, truthy, ltb,
  leb, if◌then◌else◌, all, find?, get_or,
}
use gateloop.Orchestrator.State.{
  OrchestratorV0State, idle, select, contract, develop, validate, debug, checkpoint, gate, stopped,
  RuntimeStory, OrchestratorV0Action, select_next_story, issue_contract, develop_patch,
  run_validation, write_checkpoint, mark_story_done, route_debugger, retry_develop, escalate_human,
  stop_run, RuntimeDecision, TrackerState, is_done,
}
use gateloop.Orchestrator.Select.{select_next_runtime_story, has_blocked_or_escalated_dependency}

abbrev pub find_story : String → List RuntimeStory → Option RuntimeStory
find_story id stories = find? (λ s. str_eq s.story_id id) stories

-- A null or empty `active_story_id` is falsy.
abbrev pub active_story_at : Option String → List RuntimeStory → Option RuntimeStory
active_story_at none stories = none
active_story_at (some id) stories = if truthy id then find_story id stories else none

unfoldable pub active_story : TrackerState → Option RuntimeStory
active_story s = active_story_at s.active_story_id s.stories

abbrev decision : OrchestratorV0Action → Option String → Option String → ℕ → RuntimeDecision
decision action story_id reason tick = record {
  action = action;
  story_id = story_id;
  reason = reason;
  tick = tick;
}

abbrev stop : String → ℕ → RuntimeDecision
stop reason tick = decision stop_run none (some reason) tick

abbrev on_story : OrchestratorV0Action → RuntimeStory → ℕ → RuntimeDecision
on_story action story tick = decision action (some story.story_id) none tick

-- `if (attempts < attempt_budget) action else escalate`.
abbrev within_attempts : OrchestratorV0Action → RuntimeStory → ℕ → RuntimeDecision
within_attempts action story tick =
    if ltb story.attempts story.attempt_budget
    then on_story action story tick
    else decision escalate_human (some story.story_id) (some "attempt_budget_exceeded") tick

abbrev nothing_selected : Bool → ℕ → RuntimeDecision
nothing_selected true tick = decision escalate_human none (some "blocked_dependency") tick
nothing_selected false tick = stop "all_stories_complete" tick

-- `if (nextId)`: an empty id counts as none.
abbrev selected : Option String → RuntimeDecision → ℕ → RuntimeDecision
selected none otherwise tick = otherwise
selected (some id) otherwise tick =
    if truthy id then decision select_next_story (some id) none tick else otherwise

abbrev validated : Option Bool → RuntimeStory → ℕ → RuntimeDecision
validated none story tick = on_story run_validation story tick
validated (some true) story tick = on_story write_checkpoint story tick
validated (some false) story tick = within_attempts route_debugger story tick

abbrev with_active : Option RuntimeStory → (RuntimeStory → RuntimeDecision) → ℕ → RuntimeDecision
with_active none act tick = stop "no_active_story" tick
with_active (some story) act tick = act story

abbrev pub optional_id : Option RuntimeStory → Option String
optional_id none = none
optional_id (some story) = some story.story_id

module _ (locale_compare : String → String → Ordering) where
  -- The case of 'idle' and 'select'.
  unfoldable pub decide_select : List RuntimeStory → ℕ → RuntimeDecision
  decide_select stories tick =
      if all (λ s. is_done s.status) stories
      then stop "all_stories_complete" tick
      else selected (select_next_runtime_story locale_compare stories)
          (nothing_selected (has_blocked_or_escalated_dependency stories) tick) tick

  unfoldable pub decide_in :
      OrchestratorV0State → TrackerState → Option RuntimeStory → RuntimeDecision
  decide_in idle s active = decide_select s.stories s.iterations_used
  decide_in select s active = decide_select s.stories s.iterations_used
  decide_in contract s active = decision issue_contract (optional_id active) none s.iterations_used
  decide_in develop s active =
      with_active active (λ story. within_attempts develop_patch story s.iterations_used)
        s.iterations_used
  decide_in validate s active =
      with_active active (λ story. validated s.last_validation_passed story s.iterations_used)
        s.iterations_used
  decide_in debug s active =
      with_active active (λ story. on_story retry_develop story s.iterations_used) s.iterations_used
  decide_in checkpoint s active =
      with_active active (λ story. on_story mark_story_done story s.iterations_used)
        s.iterations_used
  decide_in gate s active =
      if s.human_gate_cleared
      then decision select_next_story none none s.iterations_used
      else stop "awaiting_human_gate" s.iterations_used
  decide_in stopped s active =
      decision stop_run none (some (get_or s.stop_reason "already_stopped")) s.iterations_used

  -- The budget is checked before the state.
  unfoldable pub decide_next_action : TrackerState → RuntimeDecision
  unfolding decide_in active_story
  decide_next_action s =
      if leb s.run_iteration_budget s.iterations_used
      then stop "run_budget_exhausted" s.iterations_used
      else decide_in s.state s (active_story s)
