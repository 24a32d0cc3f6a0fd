-- ===== src/TaskGraph/Updating.antt =====
-- TaskUpdate: its checks and what it stores.
use mathlib.Core.Option
use gateloop.Base.{
  ℕ, suc, ◌≤◌, String, true, false, Option, none, some, List, [], ◌∷◌, ◌≡◌, refl, sym, ◌∙◌, ◌≢◌,
  arith, All, length, str_eq, eq_iff, Bool-cases, inl, inr, subst, if◌then◌else◌,
}
use gateloop.TaskGraph.State.{
  Task, TaskStatus, in_progress, TaskGraph, TaskUpdateInput, Result, ok, err, ◌>>=◌, ◌>>◌,
}
use gateloop.TaskGraph.Ops.{
  find_task, found, update_first, patched, check_transition, check_single, update, is_in_progress,
  other_in_progress,
}
use gateloop.TaskGraph.WellFormed.{
  WellFormed, NumberedFrom, InScope, DependsBack, in_progress_count, numbered_fresh,
}

-- What an accepted update has found and checked, and what it returns and stores.
pub record Updated (g : TaskGraph) (id : String) (patch : TaskUpdateInput) (now : String)
    (t' : Task) (h : TaskGraph) : Type 0 where
  pub old : Task
  pub is_found : find_task id g.tasks ≡ some old
  pub may_move : check_transition old.status patch.status ≡ ok tt
  pub alone : check_single id g.tasks patch.status ≡ ok tt
  pub returned : t' ≡ patched patch now old
  pub stored : h ≡ record g { tasks = update_first id (patched patch now) g.tasks }

finish :
    (g : TaskGraph) (id : String) (patch : TaskUpdateInput) (now : String) (old t' : Task)
    (h : TaskGraph) (a b : Result (Unit {0}))
    → let done : Result (Task × TaskGraph) =
        ok (
          patched patch now old,
          record g { tasks = update_first id (patched patch now) g.tasks },
        ) in
      (a >> (b >> done)) ≡ ok (t', h)
      → (a ≡ ok tt)
        × (b ≡ ok tt)
        × (t' ≡ patched patch now old)
        × (h ≡ record g { tasks = update_first id (patched patch now) g.tasks })
finish g id patch now old t' h (ok u) (ok v) e = (refl, refl, cc, cc)
finish g id patch now old t' h (ok u) (err x) e = cc
finish g id patch now old t' h (err x) b e = cc

pub update-Updated :
    (g : TaskGraph) (id : String) (patch : TaskUpdateInput) (now : String) (t' : Task)
    (h : TaskGraph)
    → update g id patch now ≡ ok (t', h)
    → Updated g id patch now t' h
unfolding update
update-Updated g id patch now t' h e = split (find_task id g.tasks) refl e
  where
    rest : Task → Result (Task × TaskGraph)
    rest t =
        check_transition t.status patch.status
        >> (check_single id g.tasks patch.status
            >> ok (
              patched patch now t,
              record g { tasks = update_first id (patched patch now) g.tasks },
            ))

    split :
        (o : Option Task)
        → find_task id g.tasks ≡ o
        → (found id o >>= rest) ≡ ok (t', h)
        → Updated g id patch now t' h
    split none q k = cc
    split (some t) q k =
        let (a, b, c, d) =
          finish g id patch now t t' h (check_transition t.status patch.status)
            (check_single id g.tasks patch.status) k in
        record { old = t; is_found = q; may_move = a; alone = b; returned = c; stored = d }

-- A lookup after the update of one task.
pub find_task-update_first :
    (id : String) (f : Task → Task)
    → ((t : Task) → (f t).task_id ≡ t.task_id)
    → (x : String) (tasks : List Task)
    → find_task x (update_first id f tasks)
      ≡ (if str_eq id x then Option.map f (find_task x tasks) else find_task x tasks)
unfolding update_first
find_task-update_first id f keeps x [] = elim (Bool-cases (str_eq id x)) [
  | inl e ↦ rw e
  | inr e ↦ rw e
]
find_task-update_first id f keeps x (t ∷ tasks) = ground (
  arith,
  keeps t,
  eq_iff id x,
  eq_iff t.task_id id,
  eq_iff t.task_id x,
  eq_iff (f t).task_id x,
  find_task-update_first id f keeps x tasks,
)

All-update_first :
    (P : Task → Type 0) (id : String) (f : Task → Task)
    → ((t : Task) → P t → P (f t))
    → (tasks : List Task) → All P tasks
    → All P (update_first id f tasks)
unfolding update_first
All-update_first P id f keep [] h = tt
All-update_first P id f keep (t ∷ tasks) (p, h) = elim (Bool-cases (str_eq t.task_id id)) [
  | inl e ↦ rw e (keep t p, h)
  | inr e ↦ rw e (p, All-update_first P id f keep tasks h)
]

NumberedFrom-update_first :
    (story id : String) (f : Task → Task)
    → ((t : Task) → ((f t).task_id ≡ t.task_id) × ((f t).sequence ≡ t.sequence))
    → (k : ℕ) (tasks : List Task) → NumberedFrom story k tasks
    → NumberedFrom story k (update_first id f tasks)
unfolding update_first
NumberedFrom-update_first story id f keep k [] n = tt
NumberedFrom-update_first story id f keep k (t ∷ tasks) (a, b, n) =
    elim (Bool-cases (str_eq t.task_id id)) [
      | inl e ↦ rw e ((keep t).1 ∙ a, (keep t).0 ∙ b, n)
      | inr e ↦ rw e (a, b, NumberedFrom-update_first story id f keep (suc k) tasks n)
    ]

length-update_first :
    (id : String) (f : Task → Task) (tasks : List Task)
    → length (update_first id f tasks) ≡ length tasks
unfolding update_first
length-update_first id f [] = refl
length-update_first id f (t ∷ tasks) = ground (arith, length-update_first id f tasks)

-- With no other task in progress and none of this id, none is in progress.
none_in_progress :
    (id : String) (tasks : List Task)
    → All (λ t. t.task_id ≢ id) tasks
    → other_in_progress id tasks ≡ false
    → in_progress_count tasks ≡ 0
none_in_progress id [] h e = refl
none_in_progress id (t ∷ tasks) (n, h) e =
    ground (arith, n, eq_iff t.task_id id, none_in_progress id tasks h)

one_in_progress :
    (story id : String) (f : Task → Task) (k : ℕ) (tasks : List Task)
    → NumberedFrom story k tasks
    → other_in_progress id tasks ≡ false
    → in_progress_count (update_first id f tasks) ≤ 1
unfolding update_first
one_in_progress story id f k [] n e = omega arith
one_in_progress story id f k (t ∷ tasks) (a, b, n) e = elim (Bool-cases (str_eq t.task_id id)) [
  | inl q ↦
      let here : t.task_id ≡ id = (eq_iff t.task_id id).0 q in
      let fresh : All (λ u. u.task_id ≢ id) tasks =
        subst (λ i. All (λ u. u.task_id ≢ i) tasks) (sym b ∙ here)
          (numbered_fresh story k (suc k) tasks (omega arith) n) in
      let none_left = none_in_progress id tasks fresh (ground arith) in ground arith
  | inr q ↦ let later = one_in_progress story id f (suc k) tasks n (ground arith) in ground arith
]

-- A patch that starts no task adds none in progress.
in_progress_count-update_first :
    (id : String) (f : Task → Task)
    → ((t : Task) → is_in_progress (f t) ≡ true → is_in_progress t ≡ true)
    → (tasks : List Task) → in_progress_count (update_first id f tasks) ≤ in_progress_count tasks
unfolding update_first
in_progress_count-update_first id f keep [] = omega arith
in_progress_count-update_first id f keep (t ∷ tasks) =
    ground (arith, keep t, in_progress_count-update_first id f keep tasks)

-- A patch to 'in_progress' passed the check on the other tasks; any other patch starts no task.
count_after :
    (story id : String) (patch : TaskUpdateInput) (now : String) (tasks : List Task)
    → NumberedFrom story 0 tasks
    → check_single id tasks patch.status ≡ ok tt
    → in_progress_count tasks ≤ 1
    → in_progress_count (update_first id (patched patch now) tasks) ≤ 1
unfolding patched
count_after story id patch now tasks n c h = split patch.status refl c
  where
    kept :
        ((t : Task) → is_in_progress (patched patch now t) ≡ true → is_in_progress t ≡ true)
        → in_progress_count (update_first id (patched patch now) tasks) ≤ 1
    kept k = omega (arith, in_progress_count-update_first id (patched patch now) k tasks, h)

    split :
        (o : Option TaskStatus)
        → patch.status ≡ o
        → check_single id tasks o ≡ ok tt
        → in_progress_count (update_first id (patched patch now) tasks) ≤ 1
    split (some in_progress) e k =
        one_in_progress story id (patched patch now) 0 tasks n (ground arith)
    split none e k = kept (λ t s. ground arith)
    split (some TaskStatus.pending) e k = kept (λ t s. ground arith)
    split (some TaskStatus.blocked) e k = kept (λ t s. ground arith)
    split (some TaskStatus.done) e k = kept (λ t s. ground arith)
    split (some TaskStatus.abandoned) e k = kept (λ t s. ground arith)

-- An accepted TaskUpdate keeps the store well formed.
pub update-WellFormed :
    (g : TaskGraph) (id : String) (patch : TaskUpdateInput) (now : String) (t' : Task)
    (h : TaskGraph)
    → WellFormed g
    → update g id patch now ≡ ok (t', h)
    → WellFormed h
unfolding patched
update-WellFormed g id patch now t' h w e =
    let u = update-Updated g id patch now t' h e in
    subst WellFormed (sym u.stored) (record {
      counted = w.counted ∙ sym (length-update_first id (patched patch now) g.tasks);
      numbered =
          NumberedFrom-update_first g.parent_story_id id (patched patch now) (λ t. (refl, refl)) 0
            g.tasks w.numbered;
      scoped =
          All-update_first (InScope g.allowed_write_set) id (patched patch now) (λ t p. p) g.tasks
            w.scoped;
      ordered =
          All-update_first (DependsBack g.parent_story_id) id (patched patch now) (λ t p. p) g.tasks
            w.ordered;
      single = count_after g.parent_story_id id patch now g.tasks w.numbered u.alone w.single;
    })
