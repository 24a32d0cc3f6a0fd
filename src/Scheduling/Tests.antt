-- ===== src/Scheduling/Tests.antt =====
-- Runs on small inputs: two stories, the first of which needs the second; a world that counts the
-- checkpoints.
use Prim.Native.String.{compare}
use gateloop.Base.{
  length, leb, ◌≤◌, ◌++◌, ArePairwise, ℕ, ◌+◌, String, true, false, none, some, List, [], ◌∷◌, ◌≡◌,
  refl, eq_iff,
}
use gateloop.Harness.State.{StoryRecord, todo, parallel_safe}
use gateloop.Scheduling.Sequential.{
  SchedulerOutcome, all_done, SchedulerOptions, SchedulerState, turn, run_sequential_scheduler,
}
use gateloop.Base.Sort.{sort}
use gateloop.Harness.Select.{select_next_story}
use gateloop.Scheduling.SpawnPlan.{
  SpawnCandidate, SpawnPlan, pairs_of, sorted_parallels, compute_spawn_plan, apply_wip_cap,
}
use gateloop.Scheduling.Planned.{Paired, Separate, spawn_plan-Separate}
use gateloop.Scheduling.Wip.{wip_cap-bounds}
use gateloop.Scheduling.Rounds.{HaveUniqueIds}
use gateloop.Scheduling.Dependencies.{Follow, scheduler-Follow}

abbrev story : String → List String → StoryRecord
story id deps = record {
  story_id = id;
  epic_id = "E";
  depends_on = deps;
  parallelism_class = parallel_safe;
  status = todo;
  attempts = 0;
  attempt_budget = 3;
  branch = none;
  last_action = none;
  last_result = none;
  last_validation = none;
  blocked_reason = none;
}

abbrev options : SchedulerOptions ℕ
options = record {
  run_inner_loop = λ s w. (true, w);
  on_checkpoint = λ s w. (true, w + 1);
  run_budget = none;
}

abbrev stories : List StoryRecord
stories = story "a" ("b" ∷ []) ∷ story "b" [] ∷ []

distinct : HaveUniqueIds stories
distinct = (((λ e. let bad : false ≡ true = (eq_iff "a" "b").1 e in cc), tt), (tt, tt))

scheduler-Follow_example :
    (outcome : SchedulerOutcome) × (last : SchedulerState ℕ) × (run_sequential_scheduler compare 3
        options stories 0
      ≡ some (outcome, last))
    × Follow stories [] last.completed
scheduler-Follow_example = scheduler-Follow compare options stories distinct 0

-- The run ends as all done although the story that waits for an unknown one has not run.
unfinished_all_done :
    run_sequential_scheduler compare 2 options (story "a" ("x" ∷ []) ∷ []) 0
    ≡ some (
      all_done,
      record { stories = story "a" ("x" ∷ []) ∷ []; completed = []; iterations = 0; world = 0 },
    )
unfolding run_sequential_scheduler turn select_next_story sort
unfinished_all_done = refl

abbrev candidate : String → List String → SpawnCandidate
candidate id globs = record {
  story_id = id;
  parallelism_class = parallel_safe;
  allowed_write_set = globs;
}

abbrev candidates : List SpawnCandidate
candidates =
    candidate "b" ("src/a/*" ∷ [])
    ∷ candidate "a" ("src/**" ∷ [])
    ∷ candidate "c" ("docs/*" ∷ [])
    ∷ []

abbrev planned : SpawnPlan
planned = record {
  parallel_batch = "a" ∷ "c" ∷ [];
  sequential_queue = "b" ∷ [];
  overlap_pairs = ("a", "b") ∷ [];
}

planned_three : compute_spawn_plan compare candidates ≡ some planned
unfolding compute_spawn_plan sort
planned_three = refl

spawn_plan-Separate_example :
    (plan : SpawnPlan) × (compute_spawn_plan compare candidates ≡ some plan)
    × ArePairwise
        (Paired (pairs_of (sorted_parallels compare candidates)))
        (sorted_parallels compare candidates)
    × ArePairwise (Separate (pairs_of (sorted_parallels compare candidates))) plan.parallel_batch
spawn_plan-Separate_example = spawn_plan-Separate compare candidates

wip_cap-bounds_example :
    let capped = apply_wip_cap compare planned 1 in
    (length capped.parallel_batch ≤ 1)
    × (length capped.parallel_batch + length capped.sequential_queue ≡ 3)
    × (leb 2 1 ≡ false
        → capped.parallel_batch ++ capped.sequential_queue
          ≡ sort compare planned.parallel_batch ++ planned.sequential_queue)
wip_cap-bounds_example = wip_cap-bounds compare planned 1
