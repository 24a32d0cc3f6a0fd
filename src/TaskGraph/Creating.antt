-- ===== src/TaskGraph/Creating.antt =====
-- TaskCreate: its checks and what it stores.
use mathlib.Core.Option
use gateloop.Base.{
  ℕ, ◌+◌, ◌<◌, String, Bool, true, false, Option, none, some, get_or, List, [], ◌∷◌, ◌++◌, ◌≡◌,
  refl, sym, ap, ◌∙◌, arith, All, All-append, All-map, length, length-append, Bool-cases, inl, inr,
  subst, ◌↔◌,
}
use gateloop.Glob.{covered}
use gateloop.TaskGraph.State.{Task, TaskGraph, TaskCreateInput, Result, ok, err, ◌>>◌, pending}
use gateloop.TaskGraph.Ops.{
  files_outside, reject_outside, known, check_dependencies, new_task, with_task, create, task_id_of,
}
use gateloop.TaskGraph.WellFormed.{WellFormed, in_progress_count, NumberedFrom-append, known_number}

files_outside_nil :
    (files scope : List String)
    → files_outside files scope ≡ some []
    → All (λ f. covered f scope ≡ some true) files
unfolding files_outside
files_outside_nil [] scope h = tt
files_outside_nil (f ∷ files) scope h =
    split (covered f scope) refl h (files_outside_nil files scope)
  where
    split :
        (c : Option Bool)
        → covered f scope ≡ c
        → (elim c [
          | none ↦ none
          | some true ↦ files_outside files scope
          | some false ↦ Option.map (λ l. f ∷ l) (files_outside files scope)
        ])
          ≡ some []
        → (files_outside files scope ≡ some [] → All (λ g. covered g scope ≡ some true) files)
        → All (λ g. covered g scope ≡ some true) (f ∷ files)
    split none e k ih = cc
    split (some true) e k ih = (e, ih k)
    split (some false) e k ih = ground arith

files_outside-All :
    (files scope : List String)
    → All (λ f. covered f scope ≡ some true) files
    → files_outside files scope ≡ some []
unfolding files_outside
files_outside-All [] scope h = refl
files_outside-All (f ∷ files) scope (c, h) = rw (c, files_outside) (files_outside-All files scope h)

reject_outside_ok : (o : Option (List String)) → reject_outside o ≡ ok tt → o ≡ some []
reject_outside_ok none h = cc
reject_outside_ok (some []) h = refl
reject_outside_ok (some (f ∷ l)) h = cc

check_dependencies_ok :
    (tasks : List Task) (ds : List String)
    → check_dependencies tasks ds ≡ ok tt
    → All (λ d. known tasks d ≡ true) ds
unfolding check_dependencies
check_dependencies_ok tasks [] h = tt
check_dependencies_ok tasks (d ∷ ds) h = elim (Bool-cases (known tasks d)) [
  | inl e ↦ (e, check_dependencies_ok tasks ds (rw e at h))
  | inr e ↦ let bad : err _ ≡ ok tt = rw e at h in cc
]

check_dependencies-All :
    (tasks : List Task) (ds : List String)
    → All (λ d. known tasks d ≡ true) ds
    → check_dependencies tasks ds ≡ ok tt
unfolding check_dependencies
check_dependencies-All tasks [] h = refl
check_dependencies-All tasks (d ∷ ds) (e, h) = rw e (check_dependencies-All tasks ds h)

-- The checks that an accepted task has passed, and what is stored.
pub record Created (g : TaskGraph) (input : TaskCreateInput) (now : String) (t : Task)
    (h : TaskGraph) : Type 0 where
  pub in_scope :
      All (λ f. covered f g.allowed_write_set ≡ some true) (get_or input.files_touched [])
  pub dependencies_known : All (λ d. known g.tasks d ≡ true) (get_or input.depends_on [])
  pub stored : t ≡ new_task g input now
  pub appended : h ≡ with_task g t

seq_ok :
    {B : Type 0} (m : Result (Unit {0})) (k : Result B) {b : B}
    → (m >> k) ≡ ok b
    → (m ≡ ok tt) × (k ≡ ok b)
seq_ok (ok u) k e = (refl, e)
seq_ok (err x) k e = cc

ok_pair :
    (a c : Task) (b d : TaskGraph)
    → ◌≡◌ {A = Result (Task × TaskGraph)} (ok (a, b)) (ok (c, d))
    → (c ≡ a) × (d ≡ b)
ok_pair a c b d e = (cc, cc)

-- TaskCreate succeeds exactly when every touched file is covered by the parent write set and every
-- dependency is the id of a stored task. Then it appends the new task, pending, under the next
-- number, and changes nothing else of the store.
pub create_iff :
    (g : TaskGraph) (input : TaskCreateInput) (now : String) (t : Task) (h : TaskGraph)
    → (create g input now ≡ ok (t, h)) ↔ Created g input now t h
unfolding create
create_iff g input now t h = (forward, backward)
  where
    files : List String
    files = get_or input.files_touched []

    deps : List String
    deps = get_or input.depends_on []

    made : Task
    made = new_task g input now

    stored : Result (Task × TaskGraph)
    stored = ok (made, with_task g made)

    checked : Result (Task × TaskGraph)
    checked =
        reject_outside (files_outside files g.allowed_write_set)
        >> (check_dependencies g.tasks deps >> stored)

    forward : checked ≡ ok (t, h) → Created g input now t h
    forward e =
        let (inside, e') =
          seq_ok (reject_outside (files_outside files g.allowed_write_set))
            (check_dependencies g.tasks deps >> stored) e in
        let (deps_known, e'') = seq_ok (check_dependencies g.tasks deps) stored e' in
        let (same, same') = ok_pair made t (with_task g made) h e'' in
        record {
          in_scope = files_outside_nil files g.allowed_write_set (reject_outside_ok _ inside);
          dependencies_known = check_dependencies_ok g.tasks deps deps_known;
          stored = same;
          appended = same' ∙ ap (with_task g) (sym same);
        }

    backward : Created g input now t h → checked ≡ ok (t, h)
    backward c =
        let end : stored ≡ ok (t, h) = cc (c.stored, c.appended) in
        ground (
          arith,
          files_outside-All files g.allowed_write_set c.in_scope,
          check_dependencies-All g.tasks deps c.dependencies_known,
        )

in_progress_count-append :
    (tasks : List Task) (t : Task)
    → t.status ≡ pending
    → in_progress_count (tasks ++ t ∷ []) ≡ in_progress_count tasks
in_progress_count-append [] t e = ground arith
in_progress_count-append (u ∷ tasks) t e = ground (arith, in_progress_count-append tasks t e)

built_WellFormed :
    (g : TaskGraph) (input : TaskCreateInput) (now : String)
    → WellFormed g
    → All (λ f. covered f g.allowed_write_set ≡ some true) (get_or input.files_touched [])
    → All (λ d. known g.tasks d ≡ true) (get_or input.depends_on [])
    → WellFormed (with_task g (new_task g input now))
unfolding new_task
built_WellFormed g input now w in_scope deps_known = record {
  counted = omega (arith, length-append g.tasks (new_task g input now ∷ []), w.counted);
  numbered =
      NumberedFrom-append g.parent_story_id 0 g.tasks (new_task g input now) w.numbered
        (w.counted ∙ zeroed) (ap (task_id_of g.parent_story_id) (w.counted ∙ zeroed));
  scoped = All-append _ g.tasks (new_task g input now ∷ []) w.scoped (in_scope, tt);
  ordered =
      All-append _ g.tasks (new_task g input now ∷ []) w.ordered
        (All-map _ _ (get_or input.depends_on []) back deps_known, tt);
  single = omega (arith, in_progress_count-append g.tasks (new_task g input now) refl, w.single);
}
  where
    zeroed : length g.tasks ≡ 0 + length g.tasks
    zeroed = omega arith

    back :
        (d : String)
        → known g.tasks d ≡ true
        → (j : ℕ) × (j < g.seq) × (d ≡ task_id_of g.parent_story_id j)
    back d k =
        let (j, below, same) = known_number g.parent_story_id 0 g.tasks d w.numbered k in
        (j, omega (arith, w.counted), same)

-- An accepted TaskCreate keeps the store well formed.
pub create-WellFormed :
    (g : TaskGraph) (input : TaskCreateInput) (now : String) (t : Task) (h : TaskGraph)
    → WellFormed g
    → create g input now ≡ ok (t, h)
    → WellFormed h
create-WellFormed g input now t h w e =
    subst WellFormed (sym c.appended) (subst after (sym c.stored) built)
  where
    c : Created g input now t h
    c = (create_iff g input now t h).0 e

    after : Task → Type 0
    after u = WellFormed (with_task g u)

    made : Task
    made = new_task g input now

    built : after made
    built = built_WellFormed g input now w c.in_scope c.dependencies_known
