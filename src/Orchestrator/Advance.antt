-- ===== src/Orchestrator/Advance.antt =====
-- `advanceTrackerState` (orchestrator-v0.ts, lines 250 to 390): the state after an executed decision.
pub mod Laws
use gateloop.Base.{
  ◌+◌, String, Bool, true, false, Option, none, some, List, [], ◌∷◌, ◌++◌, map, str_eq, truthy,
  if◌then◌else◌, get_or,
}
use gateloop.Orchestrator.State.{
  select, contract, develop, validate, debug, checkpoint, gate, stopped, RuntimeStory,
  RuntimeStoryStatus, in_progress, passed, checkpointed, debugging, escalated, done,
  OrchestratorV0Action, select_next_story, issue_contract, develop_patch, run_validation,
  write_checkpoint, mark_story_done, route_debugger, retry_develop, escalate_human, stop_run,
  RuntimeDecision, TrackerState, ActionResult,
}
use gateloop.Orchestrator.Decide.{find_story}

-- A new array with the story of an id patched.
unfoldable pub patch_story :
    String → (RuntimeStory → RuntimeStory) → List RuntimeStory → List RuntimeStory
patch_story id patch stories = map (λ s. if str_eq s.story_id id then patch s else s) stories

-- `activeId ? patchStory(activeId, patch) : state.stories`.
abbrev pub patch_active :
    String → (RuntimeStory → RuntimeStory) → List RuntimeStory → List RuntimeStory
patch_active id patch stories = if truthy id then patch_story id patch stories else stories

abbrev pub with_status : RuntimeStoryStatus → RuntimeStory → RuntimeStory
with_status status story = record story { status = status }

-- `decision.story_id ?? state.active_story_id ?? ''`.
abbrev pub active_id : RuntimeDecision → TrackerState → String
active_id d s = get_or d.story_id (get_or s.active_story_id "")

-- The case of 'select_next_story' whose id is missing or whose execution failed.
abbrev select_failed : TrackerState → ActionResult → TrackerState
select_failed s r = record s {
  state = stopped;
  stop_reason = some (get_or r.error "select_failed");
}

abbrev select_story : Option String → TrackerState → ActionResult → TrackerState
select_story none s r = select_failed s r
select_story (some id) s r =
    if truthy id
    then if r.success
      then record s {
        state = contract;
        active_story_id = some id;
        last_validation_passed = none;
        stories = patch_story id (with_status in_progress) s.stories;
      }
      else select_failed s r
    else select_failed s r

abbrev count_attempt : String → Option RuntimeStory → List RuntimeStory → List RuntimeStory
count_attempt id none stories = stories
count_attempt id (some active) stories =
    patch_active id (λ s. record s { attempts = active.attempts + 1 }) stories

abbrev pub verdict_status : Option Bool → RuntimeStoryStatus
verdict_status (some true) = passed
verdict_status _ = in_progress

abbrev pub escalate_story : Option String → RuntimeStory → RuntimeStory
escalate_story reason story = record story { status = escalated; blocked_reason = reason }

abbrev advance_by :
    OrchestratorV0Action → String → TrackerState → RuntimeDecision → ActionResult → TrackerState
advance_by select_next_story id s d r = select_story d.story_id s r
advance_by issue_contract id s d r = record s {
  state = develop;
  stories = patch_active id (with_status in_progress) s.stories;
}
advance_by develop_patch id s d r = record s {
  state = validate;
  last_validation_passed = none;
  stories = count_attempt id (find_story id s.stories) s.stories;
}
advance_by run_validation id s d r = record s {
  last_validation_passed = r.validation_passed;
  stories = patch_active id (with_status (verdict_status r.validation_passed)) s.stories;
}
advance_by write_checkpoint id s d r = record s {
  state = checkpoint;
  stories = patch_active id (with_status checkpointed) s.stories;
}
advance_by route_debugger id s d r = record s {
  state = debug;
  stories = patch_active id (with_status debugging) s.stories;
}
advance_by retry_develop id s d r = record s { state = develop; last_validation_passed = none }
advance_by mark_story_done id s d r = record s {
  state = select;
  active_story_id = none;
  last_validation_passed = none;
  stories = patch_active id (with_status done) s.stories;
}
advance_by escalate_human id s d r = record s {
  state = gate;
  stop_reason = some (get_or d.reason "escalated");
  stories = patch_active id (escalate_story d.reason) s.stories;
}
advance_by stop_run id s d r = record s {
  state = stopped;
  stop_reason = some (get_or d.reason "stopped");
}

-- Every case appends the decision to the log and counts one iteration.
unfoldable pub advance_tracker_state : TrackerState → RuntimeDecision → ActionResult → TrackerState
advance_tracker_state s d r =
    let logged = record s {
      decision_log = s.decision_log ++ d ∷ [];
      iterations_used = s.iterations_used + 1;
    } in
    advance_by d.action (active_id d s) logged d r
