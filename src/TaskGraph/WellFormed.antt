-- ===== src/TaskGraph/WellFormed.antt =====
-- What holds of the store between operations.
use text.Mathlib.TextLemmas.{append_cancel_left}
use gateloop.Base.{
  ℕ, suc, ◌+◌, ◌≤◌, ◌<◌, String, true, some, List, [], ◌∷◌, ◌++◌, ◌≡◌, sym, ap, ◌∙◌, ◌≢◌, arith,
  All, length, filter, str_eq, eq_iff, Bool-cases, inl, inr,
}
use gateloop.Base.Text.{decimal, decimal_injective}
use gateloop.Glob.{covered}
use gateloop.TaskGraph.State.{Task, TaskGraph}
use gateloop.TaskGraph.Ops.{task_id_of, is_in_progress, known}

-- The tasks carry the numbers from `k` on, and the ids that `create` makes of them.
abbrev pub NumberedFrom : String → ℕ → List Task → Type 0
NumberedFrom story k [] = Unit
NumberedFrom story k (t ∷ tasks) =
    (t.sequence ≡ k) × (t.task_id ≡ task_id_of story k) × NumberedFrom story (suc k) tasks

abbrev pub InScope : List String → Task → Type 0
InScope scope t = All (λ f. covered f scope ≡ some true) t.files_touched

-- Every dependency is the id of a task that was created earlier.
abbrev pub DependsBack : String → Task → Type 0
DependsBack story t = All (λ d. (j : ℕ) × (j < t.sequence) × (d ≡ task_id_of story j)) t.depends_on

abbrev pub in_progress_count : List Task → ℕ
in_progress_count tasks = length (filter is_in_progress tasks)

pub record WellFormed (g : TaskGraph) : Type 0 where
  pub counted : g.seq ≡ length g.tasks
  pub numbered : NumberedFrom g.parent_story_id 0 g.tasks
  pub scoped : All (InScope g.allowed_write_set) g.tasks
  pub ordered : All (DependsBack g.parent_story_id) g.tasks
  pub single : in_progress_count g.tasks ≤ 1

pub task_id_of_injective :
    (story : String) (j k : ℕ) → task_id_of story j ≡ task_id_of story k → j ≡ k
unfolding task_id_of
task_id_of_injective story j k e =
    decimal_injective j k (append_cancel_left _ (decimal j) (decimal k) e)

-- Ids of tasks numbered from `k` on are not those of smaller numbers.
pub numbered_fresh :
    (story : String) (j k : ℕ) (tasks : List Task)
    → j < k
    → NumberedFrom story k tasks
    → All (λ t. t.task_id ≢ task_id_of story j) tasks
numbered_fresh story j k [] h n = tt
numbered_fresh story j k (t ∷ tasks) h (_, id, n) =
    (differs, numbered_fresh story j (suc k) tasks (omega arith) n)
  where
    differs : t.task_id ≢ task_id_of story j
    differs e =
        let same : k ≡ j = task_id_of_injective story k j (sym id ∙ e) in absurd (omega arith)

pub NumberedFrom-append :
    (story : String) (k : ℕ) (tasks : List Task) (t : Task)
    → NumberedFrom story k tasks
    → t.sequence ≡ k + length tasks
    → t.task_id ≡ task_id_of story (k + length tasks)
    → NumberedFrom story k (tasks ++ t ∷ [])
NumberedFrom-append story k [] t n s i =
    let e : k + 0 ≡ k = omega arith in (s ∙ e, i ∙ ap (task_id_of story) e, tt)
NumberedFrom-append story k (u ∷ tasks) t (a, b, n) s i =
    let e : k + suc (length tasks) ≡ suc k + length tasks = omega arith in
    (a, b, NumberedFrom-append story (suc k) tasks t n (s ∙ e) (i ∙ ap (task_id_of story) e))

-- A known id is that of a number already given.
pub known_number :
    (story : String) (k : ℕ) (tasks : List Task) (id : String)
    → NumberedFrom story k tasks
    → known tasks id ≡ true
    → (j : ℕ) × (j < k + length tasks) × (id ≡ task_id_of story j)
known_number story k [] id n h = cc
known_number story k (t ∷ tasks) id (_, named, n) h = elim (Bool-cases (str_eq t.task_id id)) [
  | inl e ↦ (k, omega arith, sym ((eq_iff t.task_id id).0 e) ∙ named)
  | inr e ↦
      let (j, below, same) = known_number story (suc k) tasks id n (ground arith) in
      (j, omega arith, same)
]
