-- ===== src/TaskGraph/Next.antt =====
-- TaskList and the next runnable subtask.
use mathlib.Core.Option.{some-injective}
use gateloop.Base.{
  ℕ, ◌≤◌, String, Bool, true, false, none, some, List, [], ◌∷◌, ◌≡◌, refl, sym, ◌∙◌, ap, ◌≢◌, ◌↔◌,
  arith, Memᴰ, All, All-map, All-mem, mem-filter, mem-filter_of, filter, all, all_iff, find?,
  find?-mem, find?-none, All-of_mem, Option-cases, str_eq, eq_iff, compare, Ordering, Bool-cases,
  inl, inr, subst,
}
use gateloop.Base.Sort.{IsCollation, sort, mem-sort, sort-IsSorted, IsSorted, All-of_sort}
use gateloop.TaskGraph.State.{Task, TaskStatus, pending, done, TaskGraph, same_status}
use gateloop.TaskGraph.Ops.{by_sequence, list_all, list, is_done, next}

by_sequence-IsCollation : IsCollation by_sequence
by_sequence-IsCollation = record { total = λ a b. ground arith; trans = λ a b c. ground arith }

-- A stored task of this id is done.
abbrev pub Finished : TaskGraph → String → Type 0
Finished g id = (u : Task) × Memᴰ u g.tasks × (u.task_id ≡ id) × (u.status ≡ done)

abbrev pub IsReady : TaskGraph → Task → Type 0
IsReady g t = (t.status ≡ pending) × All (Finished g) t.depends_on

done_sound :
    (tasks : List Task) (id : String)
    → is_done tasks id ≡ true
    → (u : Task) × Memᴰ u tasks × (u.task_id ≡ id) × (u.status ≡ done)
done_sound [] id h = cc
done_sound (t ∷ tasks) id h = elim (Bool-cases (same_status t.status done)) [
  | inl d ↦ elim (Bool-cases (str_eq t.task_id id)) [
    | inl e ↦ (t, Memᴰ.head refl, (eq_iff t.task_id id).0 e, ground arith)
    | inr e ↦ let (u, m, n, k) = done_sound tasks id (ground arith) in (u, Memᴰ.tail m, n, k)
  ]
  | inr d ↦ let (u, m, n, k) = done_sound tasks id (ground arith) in (u, Memᴰ.tail m, n, k)
]

done_complete :
    (tasks : List Task) (u : Task) → Memᴰ u tasks → u.status ≡ done → is_done tasks u.task_id ≡ true
done_complete [] u m d = elim m [ ]
done_complete (t ∷ tasks) u (Memᴰ.head e) d =
    let same : t.status ≡ done = ap (λ (x : Task). x.status) (sym e) ∙ d in
    let named : t.task_id ≡ u.task_id = ap (λ (x : Task). x.task_id) (sym e) in
    ground (arith, eq_iff t.task_id u.task_id)
done_complete (t ∷ tasks) u (Memᴰ.tail m) d = ground (arith, done_complete tasks u m d)

deps_iff :
    (g : TaskGraph) (t : Task)
    → (all (is_done g.tasks) t.depends_on ≡ true) ↔ All (Finished g) t.depends_on
deps_iff g t =
    let h = all_iff (is_done g.tasks) t.depends_on in
    (
      (λ e. All-map _ _ t.depends_on (done_sound g.tasks) (h.0 e)),
      (λ e. h.1 (
          All-map _ _ t.depends_on
            (λ id (u, m, n, d).
              subst (λ x. is_done g.tasks x ≡ true) n (done_complete g.tasks u m d))
            e)),
    )

-- In a sorted list, what `find` returns of a filtered part is least among what it could return.
find_least :
    (q p : Task → Bool) (tasks : List Task) (t : Task)
    → IsSorted by_sequence tasks
    → find? p (filter q tasks) ≡ some t
    → All (λ u. q u ≡ true → p u ≡ true → by_sequence t u ≢ Ordering.gt) tasks
find_least q p [] t h e = tt
find_least q p (x ∷ tasks) t h e = elim (Bool-cases (q x)) [
  | inr n ↦ ((λ y. cc), find_least q p tasks t h.1 (ground arith))
  | inl y ↦ elim (Bool-cases (p x)) [
    | inr n ↦ ((λ _ z. cc), find_least q p tasks t h.1 (ground arith))
    | inl z ↦
        let same : x ≡ t = some-injective x t (ground arith) in
        subst (λ w. All (λ u. q u ≡ true → p u ≡ true → by_sequence w u ≢ Ordering.gt) (x ∷ tasks))
          same
          (
            (λ _ _ g. by_sequence-IsCollation.total x x g g),
            All-map _ (λ u. q u ≡ true → p u ≡ true → by_sequence x u ≢ Ordering.gt) tasks
                (λ u k _ _. k) h.0,
          )
  ]
]

is_pending_iff : (s : TaskStatus) → (same_status s pending ≡ true) ↔ (s ≡ pending)
is_pending_iff s = ((λ h. ground arith), (λ h. ground arith))

-- The task `t` is stored and ready, and no ready task has a smaller number.
pub record IsNextTask (g : TaskGraph) (t : Task) : Type 0 where
  pub listed : Memᴰ t g.tasks
  pub ready : IsReady g t
  pub first : (u : Task) → Memᴰ u g.tasks → IsReady g u → t.sequence ≤ u.sequence

compare_le : (a b : ℕ) → compare a b ≢ Ordering.gt → a ≤ b
compare_le a b h = ground arith

-- The next task is a stored pending task with every dependency done, and no such task has a smaller
-- number.
pub next-IsNextTask : (g : TaskGraph) (t : Task) → next g ≡ some t → IsNextTask g t
unfolding next list list_all
next-IsNextTask g t e =
    let sorted : List Task = sort by_sequence g.tasks in
    let q : Task → Bool = λ u. same_status u.status pending in
    let p : Task → Bool = λ u. all (is_done g.tasks) u.depends_on in
    let (m, ok_deps) = find?-mem p (filter q sorted) e in
    let (m', waits) = mem-filter q sorted m in
    let least =
      find_least q p sorted t (sort-IsSorted by_sequence by_sequence-IsCollation g.tasks) e in
    record {
      listed = mem-sort by_sequence g.tasks m';
      ready = ((is_pending_iff t.status).0 waits, (deps_iff g t).0 ok_deps);
      first = λ u mu (w, d). compare_le t.sequence u.sequence (
          All-mem _ g.tasks (All-of_sort by_sequence _ g.tasks least) mu
            ((is_pending_iff u.status).1 w) ((deps_iff g u).1 d));
    }

-- There is no next task exactly when no stored task is pending with every dependency done.
pub next-none_iff :
    (g : TaskGraph) → (next g ≡ none) ↔ ((u : Task) → Memᴰ u g.tasks → ¬ IsReady g u)
unfolding next list list_all
next-none_iff g = (forward, backward)
  where
    sorted : List Task
    sorted = sort by_sequence g.tasks

    q : Task → Bool
    q u = same_status u.status pending

    p : Task → Bool
    p u = all (is_done g.tasks) u.depends_on

    forward : find? p (filter q sorted) ≡ none → (u : Task) → Memᴰ u g.tasks → ¬ IsReady g u
    forward e u m (w, d) =
        let stored =
          All-mem (λ x. Memᴰ x sorted) g.tasks
            (All-of_sort by_sequence (λ x. Memᴰ x sorted) g.tasks
              (All-of_mem (λ x. Memᴰ x sorted) sorted (λ b k. k)))
            m in
        let waiting = mem-filter_of q sorted stored ((is_pending_iff u.status).1 w) in
        let fails = All-mem (λ x. p x ≡ false) (filter q sorted) (find?-none p _ e) waiting in
        let holds = (deps_iff g u).1 d in cc

    backward : ((u : Task) → Memᴰ u g.tasks → ¬ IsReady g u) → find? p (filter q sorted) ≡ none
    backward h = elim (Option-cases (find? p (filter q sorted))) [
      | inl e ↦ e
      | inr (t, e) ↦
          let next_one = next-IsNextTask g t (unfold next list list_all in e) in
          absurd (h t next_one.listed next_one.ready)
    ]
