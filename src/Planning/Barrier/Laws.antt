-- ===== src/Planning/Barrier/Laws.antt =====
-- The barrier on an arbitrary configuration.
use gateloop.Base.{
  ℕ, zero, suc, ◌+◌, Bool, true, not, none, List, [], ◌∷◌, map, ◌≡◌, refl, sym, ap, ◌∙◌, arith,
  length, all, ltb, if◌then◌else◌,
}
use gateloop.Base.Integers.{ℤ, pos, negsuc}
use gateloop.Base.Result.{ok, err}
use gateloop.Planning.State.{
  PlanningWorkflowConfig, PlanningFlowState, Stage, zero_stages, already_complete,
}
use gateloop.Planning.Flow.{initial_statuses, init_flow_state, is_complete, advance}
use gateloop.Planning.Progress.{all_done_at, active_count_at}
use gateloop.Planning.Order.{IsAt, at, no_activation_in_flow, advance-at}
use gateloop.Planning.Barrier.{
  StageOrderingProof, active_count_of, indices, refused_at, all_disallowed_activations_refused,
  probe, walk, no_wrap, assert_stage_ordering_barrier,
}

refused_at-at :
    (d : ℕ) (state : PlanningFlowState) → IsAt d state → (i : ℤ) → refused_at state i ≡ true
refused_at-at d state h i = let (closed, thrown) = no_activation_in_flow d state i h in ground arith

all-indices : (p : ℤ → Bool) (k n : ℕ) → ((i : ℤ) → p i ≡ true) → all p (indices k n) ≡ true
all-indices p k zero h = refl
all-indices p k (suc n) h = rw (h (pos k), all-indices p (suc k) n h) refl

all_refused-at :
    (d : ℕ) (state : PlanningFlowState)
    → IsAt d state
    → all_disallowed_activations_refused state ≡ true
unfolding all_disallowed_activations_refused
all_refused-at d state h =
    let p : ℤ → Bool = refused_at state in
    let each : (i : ℤ) → p i ≡ true = refused_at-at d state h in
    let n : ℕ = length state.stages in
    rw (each (negsuc 0), each (pos n), all-indices p 0 n each) refl

pub active_count_of-at :
    (d : ℕ) (state : PlanningFlowState)
    → IsAt d state
    → active_count_of state ≡ (if ltb d (length state.stages) then 1 else 0)
unfolding active_count_of
active_count_of-at d state h = rw h (active_count_at d state.stages)

probe-at :
    (d : ℕ) (state : PlanningFlowState) → IsAt d state → probe state (true, true) ≡ (true, true)
probe-at d state h =
    let refused = all_refused-at d state h in
    let single : not (ltb 1 (active_count_of state)) ≡ true =
      ground (arith, active_count_of-at d state h) in
    rw (refused, single) refl

at-IsAt : (d : ℕ) (state : PlanningFlowState) → IsAt d state → at d state ≡ state
at-IsAt d state h = ap (λ st. record state { statuses = st }) (sym h)

walk-at :
    (n d : ℕ) (state : PlanningFlowState)
    → IsAt d state
    → d + n ≡ length state.stages
    → walk n state (true, true) ≡ ok (at (length state.stages) state, (true, true))
unfolding walk
walk-at zero d state h e =
    let q : d ≡ length state.stages = omega arith in
    ap (λ s. ok (s, (true, true))) (sym (at-IsAt d state h) ∙ ap (λ k. at k state) q)
walk-at (suc n) d state h e =
    let moved : advance state ≡ ok (at (suc d) state) = ground (arith, advance-at d state h) in
    rw (moved, probe-at (suc d) (at (suc d) state) refl)
      (walk-at n (suc d) (at (suc d) state) refl (omega arith))

no_wrap-at : (state : PlanningFlowState) → IsAt (length state.stages) state → no_wrap state ≡ true
unfolding is_complete
no_wrap-at state h =
    let finished : is_complete state ≡ true =
      rw h (all_done_at (length state.stages) state.stages (omega arith)) in
    let refused : advance state ≡ err already_complete =
      ground (arith, advance-at (length state.stages) state h) in
    let idle : active_count_of state ≡ 0 =
      ground (arith, active_count_of-at (length state.stages) state h) in
    ground arith

abbrev pub held : StageOrderingProof
held = record {
  refused_out_of_order = true;
  no_wrap_or_corrupt_on_over_advance = true;
  never_two_active = true;
  all_held = true;
}

-- The stage-ordering barrier throws on a configuration with no stages, and on every other one it
-- returns a proof in which each invariant holds.
pub barrier_holds :
    (config : PlanningWorkflowConfig)
    → assert_stage_ordering_barrier config
      ≡ (elim config.stages [ [] ↦ err zero_stages | s ∷ stages ↦ ok held ])
unfolding assert_stage_ordering_barrier init_flow_state
barrier_holds config = by_stages config.stages refl
  where
    by_stages :
        (stages : List Stage)
        → config.stages ≡ stages
        → assert_stage_ordering_barrier (record config { stages = stages })
          ≡ (elim stages [ [] ↦ err zero_stages | s ∷ stages ↦ ok held ])
    by_stages [] e = refl
    by_stages (s ∷ rest) e =
        let n : ℕ = length (s ∷ rest) in
        let start : PlanningFlowState = record {
          mode = config.mode;
          label = config.label;
          stages = s ∷ rest;
          statuses = initial_statuses (s ∷ rest);
          checklists = map (λ _. none) (s ∷ rest);
        } in
        rw
          (
            probe-at 0 start refl,
            walk-at n 0 start refl (omega arith),
            no_wrap-at (at n start) refl,
          )
          refl
