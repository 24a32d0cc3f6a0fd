-- ===== src/StoryManager/Tests.antt =====
-- Runs on small inputs: a story whose write set overlaps that of a running one.
use Prim.Native.String.{compare}
use gateloop.Base.{String, true, false, none, some, [], ◌∷◌, ◌≡◌, ◌↔◌, refl}
use gateloop.Base.Sort.{sort}
use gateloop.Harness.State.{StoryStatus, todo, in_progress, done, parallel_safe}
use gateloop.Scheduling.SpawnPlan.{SpawnPlan, compute_spawn_plan}
use gateloop.StoryManager.Admission.{
  open_wave, ExtendedStory, AdmissionContext, admission_plan, check_admission,
}
use gateloop.StoryManager.Gates.{admits, MayStart, admit_iff}

abbrev story : String → StoryStatus → ExtendedStory
story id status = record {
  story = record {
    story_id = id;
    epic_id = "E";
    depends_on = [];
    parallelism_class = parallel_safe;
    status = status;
    attempts = 0;
    attempt_budget = 3;
    branch = none;
    last_action = none;
    last_result = none;
    last_validation = none;
    blocked_reason = none;
  };
  human_hold = false;
  wave_id = none;
  allowed_write_set = some ("src/**" ∷ []);
}

abbrev beside : ExtendedStory → ExtendedStory → AdmissionContext
beside s t = record {
  all_stories = s ∷ t ∷ [];
  wave_registry = none;
  iterations_used = 0;
  iteration_budget = 5;
}

-- The story with the greater id waits for the running one.
waits_for_running :
    admits
      (check_admission compare (beside (story "b" todo) (story "a" in_progress)) 2 (story "b" todo))
    ≡ false
unfolding check_admission compute_spawn_plan sort
waits_for_running = refl

-- The story with the smaller id does not, although their write sets are the same.
joins_running :
    admits
      (check_admission compare (beside (story "a" todo) (story "b" in_progress)) 2 (story "a" todo))
    ≡ true
unfolding check_admission compute_spawn_plan sort
joins_running = refl

-- A story with a dependency that is done and an open wave, while another of its epic runs.
abbrev dependent : ExtendedStory
dependent = record (story "a" todo) {
  story = record (story "a" todo).story { depends_on = "z" ∷ [] };
  wave_id = some "w";
}

abbrev crowded : AdmissionContext
crowded = record {
  all_stories = dependent ∷ story "b" in_progress ∷ story "z" done ∷ [];
  wave_registry = some (("w", open_wave) ∷ []);
  iterations_used = 0;
  iteration_budget = 5;
}

dependent_starts : admits (check_admission compare crowded 2 dependent) ≡ true
unfolding check_admission compute_spawn_plan sort
dependent_starts = refl

admit_iff_example :
    (plan : SpawnPlan) × (admission_plan compare crowded dependent ≡ some plan)
    × ((admits (check_admission compare crowded 2 dependent) ≡ true)
        ↔ MayStart crowded 2 dependent plan)
admit_iff_example = admit_iff compare crowded 2 dependent
