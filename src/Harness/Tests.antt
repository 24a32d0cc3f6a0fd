-- ===== src/Harness/Tests.antt =====
-- The decisions of the harness at concrete inputs.
use Prim.Native.String.{count}
use gateloop.Base.{
  ℕ, ◌<◌, ◌≤◌, String, Bool, true, false, Option, none, some, get_or, List, [], ◌∷◌, map, ◌≡◌, refl,
  ◌⊎◌, inl, inr, ◌↔◌, arith, Memᴰ, Ordering, ltb, All,
}
use gateloop.Base as B
use gateloop.Base.Text.{codes, decimal}
use gateloop.Base.Sort.{sort}
use gateloop.Base.Comparator.{IsComparator}
use gateloop.Harness.State.{
  StoryRecord, StoryStatus, todo, in_progress, done, sequential, RunBudget, planning_bundle,
  supervisor_contract, developer_patch_proposal, developer_preflight, spec_conformance_review,
  workspace_apply, validation, human_gate, finished, can_transition, preflight_verdict_to_state,
  route_debugger,
}
use gateloop.Harness.Walk.{Walk, start, step, Visits, applied_after_review}
use gateloop.Harness.Select.{select_next_story}
use gateloop.Harness.Convergence.{IterationMetrics, diverging, strictly_rising, assess_convergence}
use gateloop.Harness.AutoAdvance.{
  AutoAdvanceInput, story_needs_real_api, decide_auto_advance, advance_to,
}
use gateloop.Harness.Gate.{TickInput, tick, GateContext, glob_source}
use gateloop.Glob.{glob_test}
use gateloop.Harness.Boundary.{is_test_file, acceptance_test_violations, Untouched, boundary_ok_iff}
use gateloop.Harness.Gate.Human.{check_human_gate, some_matches, outside_files}

program : Unit {0}
unfolding is_test_file acceptance_test_violations glob_test can_transition
    preflight_verdict_to_state select_next_story sort strictly_rising assess_convergence decimal
    story_needs_real_api decide_auto_advance tick glob_source check_human_gate some_matches
    outside_files
program = tt

to_proposal : Walk developer_patch_proposal
unfolding program
to_proposal =
    step developer_patch_proposal (step supervisor_contract (step planning_bundle start refl) refl)
      refl

to_validation : Walk validation
unfolding program
to_validation =
    step validation
      (step workspace_apply
        (step spec_conformance_review (step developer_preflight to_proposal refl) refl) refl)
      refl

applied_after_review_example : Visits spec_conformance_review to_validation
unfolding to_validation
applied_after_review_example =
    applied_after_review to_validation workspace_apply (inl refl) (inr (inl refl))

to_finished : Walk finished
unfolding program
to_finished = step finished (step human_gate to_proposal refl) refl

abbrev by_length : String → String → Ordering
by_length a b = B.compare (count a) (count b)

by_length-IsComparator : IsComparator by_length
by_length-IsComparator = record { flip = λ a b. ground arith; trans = λ a b c. ground arith }

abbrev story : String → StoryStatus → List String → StoryRecord
story id status deps = record {
  story_id = id;
  epic_id = "EPIC-1";
  depends_on = deps;
  parallelism_class = sequential;
  status = status;
  attempts = 1;
  attempt_budget = 3;
  branch = none;
  last_action = none;
  last_result = none;
  last_validation = none;
  blocked_reason = none;
}

abbrev stories : List StoryRecord
stories = story "S-3" todo ("S-2" ∷ []) ∷ story "S-2" todo ("S-1" ∷ []) ∷ story "S-1" done [] ∷ []

selects_second : select_next_story by_length stories ≡ some "S-2"
unfolding program
selects_second = refl

abbrev metrics : ℕ → ℕ → ℕ → IterationMetrics
metrics delivered rework clobber = record {
  iteration = 0;
  delivered = delivered;
  rework = rework;
  clobber = clobber;
}

abbrev history : List IterationMetrics
history = metrics 1 5 0 ∷ metrics 1 1 0 ∷ metrics 1 2 0 ∷ metrics 1 4 0 ∷ []

rework_rises : (assess_convergence history none).verdict ≡ diverging
unfolding program
rework_rises = refl

abbrev budget : RunBudget
budget = record { run_iteration_budget = 12; iterations_used = 4 }

abbrev auto_input : AutoAdvanceInput
auto_input = record {
  stories = stories;
  current_epic_id = "EPIC-1";
  run_budget = budget;
  pending_human_gate = none;
  next_step_needs_real_api = none;
  convergence = none;
}

goes_on : decide_auto_advance by_length auto_input ≡ advance_to "S-2"
unfolding program
goes_on = refl

abbrev tick_input : Option Bool → TickInput
tick_input passed = record {
  state = validation;
  story = story "S-2" in_progress [];
  run_budget = budget;
  last_validation_passed = passed;
  human_gate_cleared = false;
}

failed_tick : tick (tick_input (some false)) ≡ route_debugger
unfolding program
failed_tick = refl

-- The pattern is spliced into the expression as it stands: its dot is the one of the expression.
dot_unescaped : glob_source (codes "src/**/a.ts") ≡ codes "^src/.*/a.ts$"
unfolding program
dot_unescaped = refl

abbrev anything : List ℕ → List ℕ → Option Bool
anything source text = some true

abbrev patch : GateContext
patch = record {
  changed_files = some ("src/a.ts" ∷ []);
  allowed_write_set = some ("src/**" ∷ []);
  is_promotion = false;
}

untouched : acceptance_test_violations ("src/a.ts" ∷ []) ("tests/**" ∷ []) ≡ some []
unfolding program
untouched = refl

touched :
    acceptance_test_violations ("src/a.ts" ∷ "tests/b.ts" ∷ []) ("tests/**" ∷ [])
    ≡ some ("tests/b.ts" ∷ [])
unfolding program
touched = refl

boundary_ok_iff_example :
    (acceptance_test_violations ("src/a.ts" ∷ []) ("tests/**" ∷ []) ≡ some [])
    ↔ Untouched ("tests/**" ∷ []) ("src/a.ts" ∷ [])
boundary_ok_iff_example = boundary_ok_iff ("src/a.ts" ∷ []) ("tests/**" ∷ [])
