-- ===== src/TaskGraph/Ops.antt =====
-- The operations of the store (packages/task-graph/src/index.ts, lines 44 to 111).
use Prim.Native.String as String
use mathlib.Core.Option
use gateloop.Base.{
  ℕ, ◌+◌, String, Bool, true, false, not, ◌&&◌, Option, none, some, get_or, List, [], ◌∷◌, ◌++◌,
  map, any, all, filter, find?, compare, Ordering, str_eq, if◌then◌else◌,
}
use gateloop.Base.Text.{decimal}
use gateloop.Base.Sort.{sort}
use gateloop.Glob.{covered}
use gateloop.TaskGraph.State.{
  TaskStatus, pending, in_progress, done, Task, TaskCreateInput, TaskUpdateInput, TaskGraph,
  outside_write_set, bad_glob, unknown_dependency, unknown_task, illegal_transition,
  another_in_progress, Result, ok, err, ◌>>=◌, ◌>>◌, same_status, legal_transition,
}

-- `validateFilesWithinScope`: the files outside the write set; `none` where a glob throws.
unfoldable pub files_outside : List String → List String → Option (List String)
files_outside [] scope = some []
files_outside (f ∷ files) scope =
    let rest = files_outside files scope in
    elim (covered f scope) [
      | none ↦ none
      | some true ↦ rest
      | some false ↦ Option.map (λ l. f ∷ l) rest
    ]

abbrev pub reject_outside : Option (List String) → Result (Unit {0})
reject_outside none = err bad_glob
reject_outside (some []) = ok tt
reject_outside (some (f ∷ bad)) = err (outside_write_set (f ∷ bad))

abbrev pub known : List Task → String → Bool
known tasks id = any (λ t. str_eq t.task_id id) tasks

-- The loop over `depends_on`: the first unknown id throws.
unfoldable pub check_dependencies : List Task → List String → Result (Unit {0})
check_dependencies tasks [] = ok tt
check_dependencies tasks (d ∷ ds) =
    let rest = check_dependencies tasks ds in
    if known tasks d then rest else err (unknown_dependency d)

-- `task_${parentStoryId}_${seq}`.
unfoldable pub task_id_of : String → ℕ → String
task_id_of story seq = String.◌++◌ (String.◌++◌ (String.◌++◌ "task_" story) "_") (decimal seq)

unfoldable pub new_task : TaskGraph → TaskCreateInput → String → Task
new_task g input now = record {
  task_id = task_id_of g.parent_story_id g.seq;
  parent_story_id = g.parent_story_id;
  parent_contract_id = g.parent_contract_id;
  title = input.title;
  intent = input.intent;
  status = pending;
  sequence = g.seq;
  depends_on = get_or input.depends_on [];
  files_touched = get_or input.files_touched [];
  acceptance_behavior = input.acceptance_behavior;
  created_by = input.created_by;
  attempt_count = 0;
  notes = none;
  result_ref = none;
  created_at = now;
  updated_at = now;
}

abbrev pub with_task : TaskGraph → Task → TaskGraph
with_task g t = record g { seq = g.seq + 1; tasks = g.tasks ++ t ∷ [] }

unfoldable pub create : TaskGraph → TaskCreateInput → String → Result (Task × TaskGraph)
create g input now = do
  reject_outside (files_outside (get_or input.files_touched []) g.allowed_write_set)
  check_dependencies g.tasks (get_or input.depends_on [])
  let t = new_task g input now
  ok (t, with_task g t)

abbrev pub find_task : String → List Task → Option Task
find_task id tasks = find? (λ t. str_eq t.task_id id) tasks

abbrev pub found : String → Option Task → Result Task
found id none = err (unknown_task id)
found id (some t) = ok t

unfoldable pub get : TaskGraph → String → Result Task
get g id = found id (find_task id g.tasks)

-- The found object is mutated in place: the first task of the id.
unfoldable pub update_first : String → (Task → Task) → List Task → List Task
update_first id f [] = []
update_first id f (t ∷ tasks) =
    let rest = t ∷ update_first id f tasks in if str_eq t.task_id id then f t ∷ tasks else rest

abbrev pub overwrite {ℓ} : {A : Type ℓ} → A → Option A → A
overwrite old none = old
overwrite old (some new) = new

abbrev pub overwrite_some {ℓ} : {A : Type ℓ} → Option A → Option A → Option A
overwrite_some old none = old
overwrite_some old (some new) = some new

unfoldable pub patched : TaskUpdateInput → String → Task → Task
patched patch now t = record t {
  status = overwrite t.status patch.status;
  notes = overwrite_some t.notes patch.notes;
  result_ref = overwrite_some t.result_ref patch.result_ref;
  attempt_count = overwrite t.attempt_count patch.attempt_count;
  updated_at = now;
}

abbrev pub is_in_progress : Task → Bool
is_in_progress t = same_status t.status in_progress

abbrev pub other_in_progress : String → List Task → Bool
other_in_progress id tasks = any (λ x. not (str_eq x.task_id id) && is_in_progress x) tasks

abbrev pub check_transition : TaskStatus → Option TaskStatus → Result (Unit {0})
check_transition from none = ok tt
check_transition from (some to) =
    if legal_transition from to then ok tt else err (illegal_transition from to)

abbrev pub check_single : String → List Task → Option TaskStatus → Result (Unit {0})
check_single id tasks (some in_progress) =
    if other_in_progress id tasks then err another_in_progress else ok tt
check_single id tasks _ = ok tt

unfoldable pub update : TaskGraph → String → TaskUpdateInput → String → Result (Task × TaskGraph)
unfolding get
update g id patch now = do
  t ← get g id
  check_transition t.status patch.status
  check_single id g.tasks patch.status
  ok (patched patch now t, record g { tasks = update_first id (patched patch now) g.tasks })

abbrev pub by_sequence : Task → Task → Ordering
by_sequence a b = compare a.sequence b.sequence

unfoldable pub list_all : TaskGraph → List Task
list_all g = sort by_sequence g.tasks

unfoldable pub list : TaskGraph → Option TaskStatus → List Task
unfolding list_all
list g none = list_all g
list g (some status) = filter (λ t. same_status t.status status) (list_all g)

abbrev pub is_done : List Task → String → Bool
is_done tasks id =
    any (λ x. str_eq x id) (map (λ t. t.task_id) (filter (λ t. same_status t.status done) tasks))

unfoldable pub next : TaskGraph → Option Task
unfolding list
next g = find? (λ t. all (is_done g.tasks) t.depends_on) (list g (some pending))
