-- ===== src/TaskGraph/History.antt =====
-- The store over any sequence of TaskCreate and TaskUpdate calls, accepted or not.
use mathlib.Core.Option.{some-injective}
use gateloop.Base.{
  String, some, List, [], ◌∷◌, ◌++◌, ◌≡◌, refl, sym, ap, ◌∙◌, ◌⊎◌, inl, inr, arith, str_eq, eq_iff,
  subst, Bool-cases,
}
use gateloop.TaskGraph.State.{
  Task, TaskStatus, done, abandoned, TaskGraph, TaskCreateInput, TaskUpdateInput, Result, ok, err,
  legal_transition,
}
use gateloop.TaskGraph.Ops.{create, update, find_task, patched, check_transition}
use gateloop.TaskGraph.WellFormed.{WellFormed}
use gateloop.TaskGraph.Creating.{create_iff, create-WellFormed}
use gateloop.TaskGraph.Updating.{Updated, update-Updated, update-WellFormed, find_task-update_first}

pub data Call : Type 0 where
  task_create : TaskCreateInput → String → Call
  task_update : String → TaskUpdateInput → String → Call

-- A call that throws leaves the store as it was.
abbrev pub after : TaskGraph → Result (Task × TaskGraph) → TaskGraph
after g (ok (t, h)) = h
after g (err e) = g

abbrev pub perform : TaskGraph → Call → TaskGraph
perform g (task_create input now) = after g (create g input now)
perform g (task_update id patch now) = after g (update g id patch now)

pub perform_all : TaskGraph → List Call → TaskGraph
perform_all g [] = g
perform_all g (c ∷ cs) = perform_all (perform g c) cs

-- The constructor of the class.
abbrev pub new : String → String → List String → TaskGraph
new story contract scope = record {
  tasks = [];
  seq = 0;
  parent_story_id = story;
  parent_contract_id = contract;
  allowed_write_set = scope;
}

after_cases :
    (P : TaskGraph → Type 0) (g : TaskGraph) (r : Result (Task × TaskGraph))
    → P g
    → ((t : Task) (h : TaskGraph) → r ≡ ok (t, h) → P h)
    → P (after g r)
after_cases P g (ok (t, h)) p k = k t h refl
after_cases P g (err e) p k = p

perform-WellFormed : (g : TaskGraph) (c : Call) → WellFormed g → WellFormed (perform g c)
perform-WellFormed g (task_create input now) w =
    after_cases WellFormed g (create g input now) w (λ t h. create-WellFormed g input now t h w)
perform-WellFormed g (task_update id patch now) w =
    after_cases WellFormed g (update g id patch now) w
      (λ t h. update-WellFormed g id patch now t h w)

perform_all-WellFormed :
    (g : TaskGraph) (cs : List Call) → WellFormed g → WellFormed (perform_all g cs)
unfolding perform_all
perform_all-WellFormed g [] w = w
perform_all-WellFormed g (c ∷ cs) w =
    perform_all-WellFormed (perform g c) cs (perform-WellFormed g c w)

-- After any calls on a new store: the tasks are numbered without gaps and have the ids of their
-- numbers, every touched file is covered by the parent write set, every dependency is a task created
-- earlier, and at most one task is in progress.
pub history-WellFormed :
    (story contract : String) (scope : List String) (cs : List Call)
    → WellFormed (perform_all (new story contract scope) cs)
history-WellFormed story contract scope cs =
    perform_all-WellFormed (new story contract scope) cs
      (record { counted = refl; numbered = tt; scoped = tt; ordered = tt; single = omega arith })

find_task-append :
    (id : String) (tasks more : List Task) (t : Task)
    → find_task id tasks ≡ some t
    → find_task id (tasks ++ more) ≡ some t
find_task-append id [] more t e = cc
find_task-append id (u ∷ tasks) more t e = ground (arith, find_task-append id tasks more t)

abbrev pub IsTerminal : TaskStatus → Type 0
IsTerminal status = (status ≡ done) ⊎ (status ≡ abandoned)

-- The task of this id has this status.
abbrev pub HasStatus : String → TaskStatus → TaskGraph → Type 0
HasStatus id status g = (t : Task) × (find_task id g.tasks ≡ some t) × (t.status ≡ status)

-- A terminal status has no legal transition but to itself.
terminal_patched :
    (t : Task) (patch : TaskUpdateInput) (now : String)
    → IsTerminal t.status
    → check_transition t.status patch.status ≡ ok tt
    → (patched patch now t).status ≡ t.status
unfolding patched legal_transition
terminal_patched t patch now i c = ground arith

perform-HasStatus :
    (g : TaskGraph) (c : Call) (id : String) (status : TaskStatus)
    → IsTerminal status
    → HasStatus id status g
    → HasStatus id status (perform g c)
perform-HasStatus g (task_create input now) id status i (t, f, s) =
    after_cases (HasStatus id status) g (create g input now) (t, f, s)
      (λ u h e.
        subst (HasStatus id status) (sym ((create_iff g input now u h).0 e).appended)
          (t, find_task-append id g.tasks (u ∷ []) t f, s))
perform-HasStatus g (task_update x patch now) id status i (t, f, s) =
    after_cases (HasStatus id status) g (update g x patch now) (t, f, s)
      (λ u h e. updated u h (update-Updated g x patch now u h e))
  where
    updated : (u : Task) (h : TaskGraph) → Updated g x patch now u h → HasStatus id status h
    updated u h up = subst (HasStatus id status) (sym up.stored) (elim (Bool-cases (str_eq x id)) [
      | inl e ↦
          let same : x ≡ id = (eq_iff x id).0 e in
          let old : up.old ≡ t =
            some-injective up.old t (sym up.is_found ∙ ap (λ y. find_task y g.tasks) same ∙ f) in
          let moved : (patched patch now t).status ≡ t.status =
            terminal_patched t patch now (subst IsTerminal (sym s) i) (
              subst (λ (w : Task). check_transition w.status patch.status ≡ ok tt) old
                up.may_move) in
          (
            patched patch now t,
            find_task-update_first x (patched patch now) (λ w. unfold patched in refl) id g.tasks
                ∙ (rw (e, f)),
            moved ∙ s,
          )
      | inr e ↦ (
        t,
        find_task-update_first x (patched patch now) (λ w. unfold patched in refl) id g.tasks
            ∙ (rw (e, f)),
        s,
      )
    ])

-- A task that is done or abandoned keeps its status under every later sequence of calls, and is
-- never lost.
pub terminal_forever :
    (g : TaskGraph) (cs : List Call) (id : String) (status : TaskStatus)
    → IsTerminal status
    → HasStatus id status g
    → HasStatus id status (perform_all g cs)
unfolding perform_all
terminal_forever g [] id status i h = h
terminal_forever g (c ∷ cs) id status i h =
    terminal_forever (perform g c) cs id status i (perform-HasStatus g c id status i h)
