-- ===== src/Orchestrator/Tests.antt =====
-- Small runs of orchestrator v0, and the theorems at them.
use Prim.Native.String.{compare, count}
use gateloop.Base.{
  map, All, ArePairwise, ◌≢◌, ◌≤◌, eq_iff, ℕ, String, Bool, true, false, Option, none, some, List,
  [], ◌∷◌, Ordering, ◌≡◌, refl, ◌⊎◌, inl, inr, ◌≢◌, arith, Memᴰ, length, truthy, ◌↔◌, ◌++◌, ◌+◌,
}
use gateloop.Base as B
use gateloop.Base.Sort.{sort, IsCollation}
use gateloop.Orchestrator.State.{
  RuntimeStory, RuntimeStoryStatus, todo, ready, in_progress, done, idle, gate, select, stopped,
  TrackerState, ActionResult, OrchestratorV0State,
}
use gateloop.Orchestrator.Select.{select_next_runtime_story, has_blocked_or_escalated_dependency}
use gateloop.Orchestrator.Decide.{decide_select, decide_next_action, find_story}
use gateloop.Orchestrator.Advance.{patch_story, advance_tracker_state}
use gateloop.Orchestrator.Run.{tick, run}
use gateloop.Orchestrator.Select.Laws.{IsDone, IsRunnable, IsNext, select-IsNext, select_none_iff}
use gateloop.Orchestrator.Decide.Cause.{IsSelecting}
use gateloop.Orchestrator.Run.Stop.{run_stops, gate_stops}
use gateloop.Orchestrator.Run.Done.{Verified, history, done-Verified}
use gateloop.Orchestrator.Run.Attempts.{run-InBudget}
use gateloop.Orchestrator.Run.Active.{at_work_unique}
use gateloop.Orchestrator.Run.Lifecycle.{story_gets_done}

-- What the tests compute with.
program : Unit {0}
unfolding run tick decide_next_action decide_select advance_tracker_state patch_story
    select_next_runtime_story has_blocked_or_escalated_dependency sort
program = tt

abbrev story : String → List String → RuntimeStoryStatus → RuntimeStory
story id deps status = record {
  story_id = id;
  epic_id = "EPIC-001";
  depends_on = deps;
  status = status;
  priority = 1;
  order_index = 0;
  attempts = 0;
  attempt_budget = 2;
  allowed_write_set = "src/**" ∷ [];
  validation_commands = "test" ∷ [];
  rollback_notes = "revert";
  blocked_reason = none;
}

abbrev first : RuntimeStory
first = story "STORY-001.1" [] todo

abbrev second : RuntimeStory
second = story "STORY-001.2" ("STORY-001.1" ∷ []) todo

abbrev start : OrchestratorV0State → List RuntimeStory → TrackerState
start state stories = record {
  run_id = "run-1";
  state = state;
  run_iteration_budget = 9;
  iterations_used = 0;
  stories = stories;
  active_story_id = none;
  last_validation_passed = none;
  human_gate_cleared = true;
  stop_reason = none;
  decision_log = [];
}

abbrev success : ActionResult
success = record { success = true; validation_passed = some true; error = none }

abbrev six : List ActionResult
six = success ∷ success ∷ success ∷ success ∷ success ∷ success ∷ []

selects_first : select_next_runtime_story compare (second ∷ first ∷ []) ≡ some "STORY-001.1"
unfolding program
selects_first = refl

first_done :
    find_story "STORY-001.1" (run compare (start idle (second ∷ first ∷ [])) six).stories
    ≡ some (record first { status = done; attempts = 1 })
unfolding program
first_done = refl

abbrev by_length : String → String → Ordering
by_length a b = B.compare (count a) (count b)

by_length-IsCollation : IsCollation by_length
by_length-IsCollation = record { total = λ a b. ground arith; trans = λ a b c. ground arith }

abbrev both : List RuntimeStory
both = second ∷ first ∷ []

select-IsNext_example : IsNext by_length both "STORY-001.1"
unfolding program
select-IsNext_example = select-IsNext by_length by_length-IsCollation both "STORY-001.1" refl

abbrev cyclic : RuntimeStory
cyclic = story "STORY-001.3" ("STORY-001.3" ∷ []) ready

cyclic_stuck : (t : RuntimeStory) → Memᴰ t (cyclic ∷ []) → ¬ IsRunnable (cyclic ∷ []) t
unfolding program
cyclic_stuck = (select_none_iff compare (cyclic ∷ [])).0 refl

run_stops_example : (run compare (start idle both) (six ++ six)).state ≡ stopped
run_stops_example = run_stops compare (start idle both) (six ++ six) (omega arith)

gate_stops_example :
    ((run compare (start gate both) (success ∷ six)).state ≡ stopped)
    × ((run compare (start gate both) (success ∷ six)).stories ≡ both)
gate_stops_example = gate_stops compare (start gate both) success six refl

abbrev delivered : RuntimeStory
delivered = record first { status = done; attempts = 1 }

delivered_listed : Memᴰ delivered (run compare (start idle both) six).stories
unfolding program
delivered_listed = Memᴰ.tail (Memᴰ.head refl)

done-Verified_example :
    IsDone both "STORY-001.1" ⊎ Verified "STORY-001.1" (history compare (start idle both) six [])
done-Verified_example =
    done-Verified compare (start idle both) six delivered refl delivered_listed refl

both_distinct : ArePairwise ◌≢◌ (map (λ (t : RuntimeStory). t.story_id) both)
both_distinct =
    (((λ e. let bad : false ≡ true = (eq_iff "STORY-001.2" "STORY-001.1").1 e in cc), tt), (tt, tt))

both_within : All (λ (t : RuntimeStory). t.attempts ≤ t.attempt_budget) both
both_within = ((omega arith), ((omega arith), tt))

run-InBudget_example :
    All
      (λ (t : RuntimeStory). t.attempts ≤ t.attempt_budget)
      (run compare (start idle both) six).stories
run-InBudget_example = run-InBudget compare (start idle both) six both_distinct both_within

abbrev two : List ActionResult
two = success ∷ success ∷ []

abbrev developing : RuntimeStory
developing = record first { status = in_progress }

developing_listed : Memᴰ developing (run compare (start idle both) two).stories
unfolding program
developing_listed = Memᴰ.tail (Memᴰ.head refl)

at_work_unique_example :
    ◌≡◌ {A = String} "STORY-001.1" "STORY-001.1"
    × (¬ IsSelecting (run compare (start idle both) two).state)
at_work_unique_example =
    at_work_unique compare (start idle both) two developing developing ((λ w. w), ((λ w. w), tt))
      developing_listed developing_listed tt tt

story_gets_done_example :
    let end = run compare (start idle both) six in
    (end.state ≡ select)
    × (end.active_story_id ≡ none)
    × (find_story "STORY-001.1" end.stories ≡ some (record first { status = done; attempts = 1 }))
unfolding program
story_gets_done_example =
    story_gets_done compare (start idle both) "STORY-001.1" first success success success success
      success success (inl refl) refl refl refl (omega arith) (omega arith) refl refl
