-- ===== src/Scheduling/Sequential.antt =====
-- `runSequentialScheduler` (scheduler.ts, lines 43 to 95). The inner loop and the checkpoint are
-- parameters on a world of any type: they answer whether they passed, an exception counting as not, and
-- leave the list of stories alone. The statuses that the source sets on the stories are in the state.
use gateloop.Base.{
  ℕ, zero, suc, ◌+◌, String, Bool, true, false, Option, none, some, List, [], ◌∷◌, ◌++◌, leb,
  str_eq, Ordering, find?, if◌then◌else◌,
}
use gateloop.Harness.State.{StoryRecord, StoryStatus, in_progress, escalated, done}
use gateloop.Harness.Select.{select_next_story}

pub data FailureReason : Type 0 where
  inner_loop_failure checkpoint_failed : FailureReason

-- `missing_story` is the access to a story that is not found, which throws.
pub data SchedulerOutcome : Type 0 where
  all_done : SchedulerOutcome
  stopped_at : String → FailureReason → SchedulerOutcome
  run_budget_exceeded : SchedulerOutcome
  missing_story : SchedulerOutcome

pub record SchedulerOptions (World : Type 0) : Type 0 where
  pub run_inner_loop : StoryRecord → World → Bool × World
  pub on_checkpoint : StoryRecord → World → Bool × World
  pub run_budget : Option ℕ

pub record SchedulerState (World : Type 0) : Type 0 where
  pub stories : List StoryRecord
  pub completed : List String
  pub iterations : ℕ
  pub world : World

-- One turn of the loop ends the run or goes on.
pub data Turn (World : Type 0) : Type 0 where
  finished : SchedulerOutcome → SchedulerState World → Turn World
  continues : SchedulerState World → Turn World

abbrev pub named : String → StoryRecord → Bool
named id s = str_eq s.story_id id

abbrev pub with_status : StoryStatus → StoryRecord → StoryRecord
with_status status s = record s { status = status }

-- The status of the first story of this id is set.
abbrev pub mark : String → StoryStatus → List StoryRecord → List StoryRecord
mark id status [] = []
mark id status (s ∷ stories) =
    let rest = s ∷ mark id status stories in
    if named id s then with_status status s ∷ stories else rest

abbrev pub over_budget : Option ℕ → ℕ → Bool
over_budget none iterations = false
over_budget (some budget) iterations = leb budget iterations

module _ {World : Type 0} where
  abbrev pub stop_story : SchedulerState World → StoryRecord → FailureReason → World → Turn World
  stop_story s story reason w =
      finished (stopped_at story.story_id reason)
        (record s { stories = mark story.story_id escalated s.stories; world = w })

  abbrev pub after_checkpoint : SchedulerState World → StoryRecord → Bool × World → Turn World
  after_checkpoint s story (false, w) = stop_story s story checkpoint_failed w
  after_checkpoint s story (true, w) = continues (record {
    stories = mark story.story_id done s.stories;
    completed = s.completed ++ (story.story_id ∷ []);
    iterations = s.iterations + 1;
    world = w;
  })

  abbrev pub after_inner_loop :
      SchedulerOptions World → SchedulerState World → StoryRecord → Bool × World → Turn World
  after_inner_loop opts s story (false, w) = stop_story s story inner_loop_failure w
  after_inner_loop opts s story (true, w) =
      after_checkpoint s story (opts.on_checkpoint (with_status in_progress story) w)

  abbrev pub run_story :
      SchedulerOptions World → SchedulerState World → Option StoryRecord → Turn World
  run_story opts s none = finished missing_story s
  run_story opts s (some story) =
      after_inner_loop opts (record s { stories = mark story.story_id in_progress s.stories }) story
        (opts.run_inner_loop (with_status in_progress story) s.world)

  module _ (locale_compare : String → String → Ordering) where
    unfoldable pub turn : SchedulerOptions World → SchedulerState World → Turn World
    turn opts s =
        if over_budget opts.run_budget s.iterations
        then finished run_budget_exceeded s
        else elim (select_next_story locale_compare s.stories) [
          | none ↦ finished all_done s
          | some id ↦ run_story opts s (find? (named id) s.stories)
        ]

    -- At most `fuel` turns; `none` where they do not end the run.
    abbrev pub turns :
        ℕ
        → SchedulerOptions World
        → SchedulerState World
        → Option (SchedulerOutcome × SchedulerState World)
    turns zero opts s = none
    turns (suc fuel) opts s = elim (turn opts s) [
      | finished outcome last ↦ some (outcome, last)
      | continues next ↦ turns fuel opts next
    ]

    unfoldable pub run_sequential_scheduler :
        ℕ
        → SchedulerOptions World
        → List StoryRecord
        → World
        → Option (SchedulerOutcome × SchedulerState World)
    run_sequential_scheduler fuel opts stories w =
        turns fuel opts (record { stories = stories; completed = []; iterations = 0; world = w })
