-- ===== src/Planning/Order.antt =====
-- The order that the state machine enforces, and the barrier that drives it.
use gateloop.Base.{
  ℕ, zero, suc, ◌<◌, true, false, not, ◌&&◌, Option, none, some, List, [], ◌∷◌, ◌≡◌, refl, sym, ap,
  ◌∙◌, arith, length, get_elem?, take, all, ltb, if◌then◌else◌, Bool-cases, inl, inr,
}
use gateloop.Base.Integers.{ℤ, pos, negsuc}
use gateloop.Base.Result.{ok, err, threw}
use gateloop.Planning.State.{StageStatus, todo, active, done, PlanningFlowState, already_complete}
use gateloop.Planning.Flow.{
  is_todo, is_done, active_index, can_activate, activate_stage, activate_unless, advance,
  advanced_statuses, todo_at,
}
use gateloop.Planning.Progress.{
  statuses_at, length-statuses_at, active_at, no_active_at, advanced_at, none_to_activate,
}

-- The first `d` stages are done, the next one is active, the others are todo.
abbrev pub IsAt : ℕ → PlanningFlowState → Type 0
IsAt d state = state.statuses ≡ statuses_at d state.stages

in_bounds :
    (statuses : List StageStatus) (i : ℕ)
    → i < length statuses
    → (s : StageStatus) × (get_elem? statuses i ≡ some s)
in_bounds [] i h = absurd (omega arith)
in_bounds (s ∷ statuses) zero h = (s, refl)
in_bounds (s ∷ statuses) (suc i) h = in_bounds statuses i (omega arith)

activate_unless-todo :
    (state : PlanningFlowState) (i : ℕ) (o : Option StageStatus)
    → get_elem? state.statuses i ≡ o
    → i < length state.statuses
    → threw (activate_unless state i o)
      ≡ not ((elim o [ none ↦ false | some s ↦ is_todo s ]) && all is_done (take i state.statuses))
activate_unless-todo state i none e h =
    let (s, found) = in_bounds state.statuses i h in let bad : none ≡ some s = sym e ∙ found in cc
activate_unless-todo state i (some todo) e h = ground arith
activate_unless-todo state i (some active) e h = refl
activate_unless-todo state i (some done) e h = refl

-- Where there is a status for each stage, `activateStage` throws exactly at the indices, in range or
-- not, where `canActivate` is false.
pub activates_where_allowed :
    (state : PlanningFlowState) (i : ℤ)
    → length state.statuses ≡ length state.stages
    → threw (activate_stage state i) ≡ not (can_activate state i)
unfolding activate_stage can_activate
activates_where_allowed state (negsuc k) h = refl
activates_where_allowed state (pos i) h = elim (Bool-cases (ltb i (length state.stages))) [
  | inr e ↦ rw e refl
  | inl e ↦ rw e (activate_unless-todo state i (get_elem? state.statuses i) refl (ground arith))
]

IsAt-same_length :
    (d : ℕ) (state : PlanningFlowState) → IsAt d state → length state.statuses ≡ length state.stages
IsAt-same_length d state h = ap length h ∙ length-statuses_at d state.stages

cannot_activate :
    (d : ℕ) (state : PlanningFlowState) (i : ℤ) → IsAt d state → can_activate state i ≡ false
unfolding can_activate
cannot_activate d state (negsuc k) h = refl
cannot_activate d state (pos i) h =
    let never : (todo_at state.statuses i && all is_done (take i state.statuses)) ≡ false =
      ap (λ st. todo_at st i && all is_done (take i st)) h ∙ none_to_activate d state.stages i in
    ground arith

-- In a state that the flow goes through, no stage can be activated out of turn: `canActivate` is false
-- and `activateStage` throws at every index.
pub no_activation_in_flow :
    (d : ℕ) (state : PlanningFlowState) (i : ℤ)
    → IsAt d state
    → (can_activate state i ≡ false) × (threw (activate_stage state i) ≡ true)
no_activation_in_flow d state i h = (
  cannot_activate d state i h,
  activates_where_allowed state i (IsAt-same_length d state h)
      ∙ ap not (cannot_activate d state i h),
)

-- The state with the first `d` stages done.
abbrev pub at : ℕ → PlanningFlowState → PlanningFlowState
at d state = record state { statuses = statuses_at d state.stages }

pub active_index-at :
    (d : ℕ) (state : PlanningFlowState)
    → IsAt d state
    → active_index state ≡ (if ltb d (length state.stages) then some d else none)
unfolding active_index
active_index-at d state h = elim (Bool-cases (ltb d (length state.stages))) [
  | inl e ↦ rw (e, h) (active_at d state.stages (ground arith))
  | inr e ↦ rw (e, h) (no_active_at d state.stages (ground arith))
]

-- With `d` stages done and one left, `advance` completes stage `d` and changes nothing else; with all
-- of them done it throws.
pub advance-at :
    (d : ℕ) (state : PlanningFlowState)
    → IsAt d state
    → advance state
      ≡ (if ltb d (length state.stages) then ok (at (suc d) state) else err already_complete)
unfolding advance
advance-at d state h = elim (Bool-cases (ltb d (length state.stages))) [
  | inl e ↦
      rw (active_index-at d state h, e)
        (ap (λ st. ok (record state { statuses = st }))
          (ap (λ st. advanced_statuses st d) h ∙ advanced_at d state.stages (ground arith)))
  | inr e ↦ rw (active_index-at d state h, e) refl
]
