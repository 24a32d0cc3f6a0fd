-- ===== src/Planning/Progress.antt =====
-- The statuses that a flow goes through: the first `d` stages done, the next one active, the others
-- todo.
use gateloop.Base.{
  ℕ, zero, suc, ◌≤◌, ◌<◌, true, false, ◌&&◌, none, some, List, [], ◌∷◌, map, ◌≡◌, refl, ap, arith,
  length, take, all, filter, ltb, if◌then◌else◌,
}
use gateloop.Planning.State.{Stage, StageStatus, todo, active, done}
use gateloop.Planning.Flow.{
  is_active, is_done, initial_statuses, index_of_active, advanced_statuses, todo_at,
}

abbrev pub statuses_at : ℕ → List Stage → List StageStatus
statuses_at d [] = []
statuses_at zero (s ∷ stages) = active ∷ map (λ _. todo) stages
statuses_at (suc d) (s ∷ stages) = done ∷ statuses_at d stages

pub initial_statuses_at : (stages : List Stage) → initial_statuses stages ≡ statuses_at 0 stages
initial_statuses_at [] = refl
initial_statuses_at (s ∷ stages) = refl

length-todos : (stages : List Stage) → length (map (λ _. todo) stages) ≡ length stages
length-todos [] = refl
length-todos (s ∷ stages) = omega (arith, length-todos stages)

pub length-statuses_at :
    (d : ℕ) (stages : List Stage) → length (statuses_at d stages) ≡ length stages
length-statuses_at d [] = refl
length-statuses_at zero (s ∷ stages) = ap suc (length-todos stages)
length-statuses_at (suc d) (s ∷ stages) = ap suc (length-statuses_at d stages)

pub active_at :
    (d : ℕ) (stages : List Stage)
    → d < length stages
    → index_of_active (statuses_at d stages) ≡ some d
active_at d [] h = absurd (omega arith)
active_at zero (s ∷ stages) h = refl
active_at (suc d) (s ∷ stages) h = rw (active_at d stages (omega arith)) refl

pub no_active_at :
    (d : ℕ) (stages : List Stage)
    → length stages ≤ d
    → index_of_active (statuses_at d stages) ≡ none
no_active_at d [] h = refl
no_active_at zero (s ∷ stages) h = absurd (omega arith)
no_active_at (suc d) (s ∷ stages) h = rw (no_active_at d stages (omega arith)) refl

pub advanced_at :
    (d : ℕ) (stages : List Stage)
    → d < length stages
    → advanced_statuses (statuses_at d stages) d ≡ statuses_at (suc d) stages
advanced_at d [] h = absurd (omega arith)
advanced_at zero (s ∷ []) h = refl
advanced_at zero (s ∷ t ∷ stages) h = ground arith
advanced_at (suc d) (s ∷ stages) h = ground (arith, advanced_at d stages)

pub all_done_at :
    (d : ℕ) (stages : List Stage) → length stages ≤ d → all is_done (statuses_at d stages) ≡ true
all_done_at d [] h = refl
all_done_at zero (s ∷ stages) h = absurd (omega arith)
all_done_at (suc d) (s ∷ stages) h = all_done_at d stages (omega arith)

-- No stage is todo with every stage before it done.
pub none_to_activate :
    (d : ℕ) (stages : List Stage) (i : ℕ)
    → (todo_at (statuses_at d stages) i && all is_done (take i (statuses_at d stages))) ≡ false
none_to_activate d [] i = refl
none_to_activate zero (s ∷ stages) zero = refl
none_to_activate zero (s ∷ stages) (suc i) = ground arith
none_to_activate (suc d) (s ∷ stages) zero = refl
none_to_activate (suc d) (s ∷ stages) (suc i) = none_to_activate d stages i

no_active_todos : (stages : List Stage) → length (filter is_active (map (λ _. todo) stages)) ≡ 0
no_active_todos [] = refl
no_active_todos (s ∷ stages) = no_active_todos stages

pub active_count_at :
    (d : ℕ) (stages : List Stage)
    → length (filter is_active (statuses_at d stages)) ≡ (if ltb d (length stages) then 1 else 0)
active_count_at d [] = ground arith
active_count_at zero (s ∷ stages) = ground (arith, no_active_todos stages)
active_count_at (suc d) (s ∷ stages) = ground (arith, active_count_at d stages)
