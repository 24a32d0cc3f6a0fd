-- ===== src/TaskGraph/Tests.antt =====
-- A store of two subtasks, and the theorems at it.
use gateloop.Base.{String, none, some, List, [], ◌∷◌, ◌≡◌, refl, ◌↔◌, inl}
use gateloop.Base.Sort.{sort}
use gateloop.Base.Text.{decimal}
use gateloop.Glob.{covered}
use gateloop.TaskGraph.State.{
  Task, TaskStatus, pending, in_progress, done, TaskGraph, TaskCreateInput, TaskUpdateInput,
  developer, ok, err, outside_write_set, legal_transition,
}
use gateloop.TaskGraph.Ops.{
  create, update, get, next, list, list_all, new_task, with_task, task_id_of, patched, update_first,
  files_outside, check_dependencies,
}
use gateloop.TaskGraph.WellFormed.{WellFormed}
use gateloop.TaskGraph.Creating.{Created, create_iff}
use gateloop.TaskGraph.History.{
  Call, task_create, task_update, perform_all, new, history-WellFormed, HasStatus, terminal_forever,
}
use gateloop.TaskGraph.Next.{IsNextTask, next-IsNextTask}

program : Unit {0}
unfolding create update get next list list_all new_task task_id_of patched update_first
    files_outside check_dependencies legal_transition decimal covered sort
program = tt

abbrev input : List String → List String → TaskCreateInput
input deps files = record {
  intent = "write the parser";
  title = none;
  created_by = developer;
  depends_on = some deps;
  files_touched = some files;
  acceptance_behavior = none;
}

abbrev move : TaskStatus → TaskUpdateInput
move status = record { status = some status; notes = none; result_ref = none; attempt_count = none }

abbrev empty_store : TaskGraph
empty_store = new "STORY-1" "CONTRACT-1" ("src/**" ∷ [])

abbrev first_task : Task
first_task = record {
  task_id = "task_STORY-1_0";
  parent_story_id = "STORY-1";
  parent_contract_id = "CONTRACT-1";
  title = none;
  intent = "write the parser";
  status = pending;
  sequence = 0;
  depends_on = [];
  files_touched = "src/parser.ts" ∷ [];
  acceptance_behavior = none;
  created_by = developer;
  attempt_count = 0;
  notes = none;
  result_ref = none;
  created_at = "now";
  updated_at = "now";
}

create_first :
    create empty_store (input [] ("src/parser.ts" ∷ [])) "now"
    ≡ ok (first_task, with_task empty_store first_task)
unfolding program
create_first = refl

create_outside :
    create empty_store (input [] ("docs/a.md" ∷ [])) "now"
    ≡ err (outside_write_set ("docs/a.md" ∷ []))
unfolding program
create_outside = refl

create_iff_example :
    (create empty_store (input [] ("src/parser.ts" ∷ [])) "now"
      ≡ ok (first_task, with_task empty_store first_task))
    ↔ Created empty_store
        (input [] ("src/parser.ts" ∷ []))
        "now"
        first_task
        (with_task empty_store first_task)
create_iff_example =
    create_iff empty_store (input [] ("src/parser.ts" ∷ [])) "now" first_task
      (with_task empty_store first_task)

abbrev calls : List Call
calls =
    task_create (input [] ("src/parser.ts" ∷ [])) "t0"
    ∷ task_create (input ("task_STORY-1_0" ∷ []) []) "t1"
    ∷ task_update "task_STORY-1_0" (move in_progress) "t2"
    ∷ task_update "task_STORY-1_1" (move in_progress) "t3"
    ∷ task_update "task_STORY-1_0" (move done) "t4"
    ∷ []

history-WellFormed_example :
    WellFormed (perform_all (new "STORY-1" "CONTRACT-1" ("src/**" ∷ [])) calls)
history-WellFormed_example = history-WellFormed "STORY-1" "CONTRACT-1" ("src/**" ∷ []) calls

abbrev finished : TaskGraph
finished = with_task empty_store (record first_task { status = done })

finished_done : HasStatus "task_STORY-1_0" done finished
finished_done = (record first_task { status = done }, refl, refl)

terminal_forever_example : HasStatus "task_STORY-1_0" done (perform_all finished calls)
terminal_forever_example =
    terminal_forever finished calls "task_STORY-1_0" done (inl refl) finished_done

abbrev waiting : TaskGraph
waiting = with_task empty_store first_task

next_first : next waiting ≡ some first_task
unfolding program
next_first = refl

next-IsNextTask_example : IsNextTask waiting first_task
next-IsNextTask_example = next-IsNextTask waiting first_task next_first
