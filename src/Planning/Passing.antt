-- ===== src/Planning/Passing.antt =====
-- What a gated advance does with the result of a checklist on the active stage.
use mathlib.Core.Option.{some-injective}
use gateloop.Base.{
  ℕ, zero, suc, ◌+◌, ◌<◌, Bool, true, false, Option, some, List, [], ◌∷◌, ◌≡◌, refl, sym, ap, ◌∙◌,
  arith, length, get_elem?, set, if◌then◌else◌, subst,
}
use gateloop.Base.Result.{ok}
use gateloop.Planning.State.{
  Stage, ChecklistItem, ChecklistResult, StageStatus, active, done, PlanningFlowState,
  FlowStageSnapshot,
}
use gateloop.Planning.Flow.{recorded, snapshot_at, snapshots_from, flow_snapshot}
use gateloop.Planning.Progress.{statuses_at}
use gateloop.Planning.Order.{IsAt, at}
use gateloop.Planning.Gate.{GatedAdvanceResult, advance_gated}
use gateloop.Planning.Gated.{gated-at, with_checklist}

abbrev pub Passes : ChecklistItem → Type 0
Passes i = i.pass ≡ true

snapshots_from-get :
    (k : ℕ) (state : PlanningFlowState) (stages : List Stage) (i j : ℕ) (s : Stage)
    → get_elem? stages i ≡ some s
    → k + i ≡ j
    → get_elem? (snapshots_from k state stages) i
      ≡ some (snapshot_at s (get_elem? state.statuses j) (recorded (get_elem? state.checklists j)))
snapshots_from-get k state [] i j s h e = cc
snapshots_from-get k state (t ∷ stages) zero j s h e =
    let same : t ≡ s = some-injective t s h in
    let here : k ≡ j = omega arith in rw (same, here) refl
snapshots_from-get k state (t ∷ stages) (suc i) j s h e =
    snapshots_from-get (suc k) state stages i j s h (omega arith)

get-bound :
    (stages : List Stage) (i : ℕ) (s : Stage) → get_elem? stages i ≡ some s → i < length stages
get-bound [] i s h = cc
get-bound (t ∷ stages) zero s h = omega arith
get-bound (t ∷ stages) (suc i) s h = let below = get-bound stages i s h in omega arith

get-set :
    {A : Type 0} (xs : List A) (i : ℕ) (v : A) → i < length xs → get_elem? (set xs i v) i ≡ some v
get-set [] i v h = absurd (omega arith)
get-set (x ∷ xs) zero v h = refl
get-set (x ∷ xs) (suc i) v h = get-set xs i v (omega arith)

status_at :
    (d : ℕ) (stages : List Stage)
    → d < length stages
    → (get_elem? (statuses_at d stages) d ≡ some active)
      × (get_elem? (statuses_at (suc d) stages) d ≡ some done)
status_at d [] h = absurd (omega arith)
status_at zero (s ∷ stages) h = (refl, refl)
status_at (suc d) (s ∷ stages) h = status_at d stages (omega arith)

-- After a gated advance the snapshot of the stage that was active carries the counts of the checklist
-- that was evaluated, and shows the stage as done where the checklist is complete and as active still
-- where it is not.
pub snapshot_after_gate :
    (d : ℕ) (state : PlanningFlowState) (r : ChecklistResult) (g : GatedAdvanceResult) (s : Stage)
    → IsAt d state
    → get_elem? state.stages d ≡ some s
    → length state.checklists ≡ length state.stages
    → advance_gated state r ≡ ok g
    → get_elem? (flow_snapshot g.state) d
      ≡ some (snapshot_at s (some (if r.complete then done else active)) (some r))
unfolding flow_snapshot
snapshot_after_gate d state r g s h listed len made =
    let (g', made', _, reached, _) = gated-at d state r h below in
    let both : ok g' ≡ ok g = sym made' ∙ made in
    let same : g' ≡ g = cc in
    subst (λ st. get_elem? (flow_snapshot st) d ≡ expected r.complete)
      (sym reached ∙ ap (λ (x : GatedAdvanceResult). x.state) same) (shown r.complete)
  where
    below : d < length state.stages
    below = get-bound state.stages d s listed

    expected : Bool → Option FlowStageSnapshot
    expected b = some (snapshot_at s (some (if b then done else active)) (some r))

    stored : get_elem? (set state.checklists d (some r)) d ≡ some (some r)
    stored = get-set state.checklists d (some r) (omega (arith, below, len))

    shot :
        {o : Option StageStatus} {v : StageStatus}
        → o ≡ some v
        → some (snapshot_at s o (recorded (get_elem? (set state.checklists d (some r)) d)))
          ≡ some (snapshot_at s (some v) (some r))
    shot {o} {v} e =
        ap (λ x. some (snapshot_at s x (recorded (get_elem? (set state.checklists d (some r)) d))))
          e
        ∙ ap (λ y. some (snapshot_at s (some v) (recorded y))) stored

    shown :
        (b : Bool)
        → get_elem?
            (flow_snapshot
              (if b then at (suc d) (with_checklist d r state) else with_checklist d r state))
            d
          ≡ expected b
    shown true =
        snapshots_from-get 0 (at (suc d) (with_checklist d r state)) state.stages d d s listed
          (omega arith)
        ∙ shot (status_at d state.stages below).1
    shown false =
        snapshots_from-get 0 (with_checklist d r state) state.stages d d s listed (omega arith)
        ∙ shot (ap (λ st. get_elem? st d) h ∙ (status_at d state.stages below).0)
