-- ===== src/Planning/Barrier.antt =====
-- The stage-ordering barrier (workflow.ts, lines 381 to 461), which drives the state machine through
-- its life and tries the transitions that must be refused. The source compares the text of a state
-- before and after each try; a state is a value here, which a try cannot change.
pub mod Laws
use gateloop.Base.{
  ℕ, zero, suc, Bool, true, false, not, ◌&&◌, ◌||◌, List, [], ◌∷◌, map, length, filter, all, ltb,
  ◌==◌, if◌then◌else◌,
}
use gateloop.Base.Integers.{ℤ, pos, negsuc}
use gateloop.Base.Result.{Result, ok, err, ◌>>=◌, ◌>>◌, threw}
use gateloop.Planning.State.{
  PlanningWorkflowConfig, StageStatus, PlanningFlowState, FlowError, barrier_failed,
}
use gateloop.Planning.Flow.{
  is_active, init_flow_state, is_complete, can_activate, activate_stage, advance,
}

pub record StageOrderingProof : Type 0 where
  pub refused_out_of_order : Bool
  pub no_wrap_or_corrupt_on_over_advance : Bool
  pub never_two_active : Bool
  pub all_held : Bool

unfoldable pub active_count_of : PlanningFlowState → ℕ
active_count_of state = length (filter is_active state.statuses)

-- `0, …, n − 1`, from `k` on.
abbrev pub indices : ℕ → ℕ → List ℤ
indices k zero = []
indices k (suc n) = pos k ∷ indices (suc k) n

-- A disallowed activation throws; an allowed one is skipped.
abbrev pub refused_at : PlanningFlowState → ℤ → Bool
refused_at state i = can_activate state i || threw (activate_stage state i)

unfoldable pub all_disallowed_activations_refused : PlanningFlowState → Bool
all_disallowed_activations_refused state =
    let n = length state.stages in all (refused_at state) (negsuc 0 ∷ pos n ∷ indices 0 n)

-- The two flags after a state is probed.
abbrev pub probe : PlanningFlowState → Bool × Bool → Bool × Bool
probe state (refused, single) = (
  refused && all_disallowed_activations_refused state,
  single && not (ltb 1 (active_count_of state)),
)

unfoldable pub walk :
    ℕ → PlanningFlowState → Bool × Bool → Result FlowError (PlanningFlowState × (Bool × Bool))
walk zero state flags = ok (state, flags)
walk (suc n) state flags = do next ← advance state; walk n next (probe next flags)

abbrev pub no_wrap : PlanningFlowState → Bool
no_wrap state = is_complete state && threw (advance state) && active_count_of state == 0

abbrev proof_of : PlanningFlowState × (Bool × Bool) → Result FlowError StageOrderingProof
proof_of (state, (refused, single)) =
    if refused && no_wrap state && single
    then ok (record {
      refused_out_of_order = refused;
      no_wrap_or_corrupt_on_over_advance = no_wrap state;
      never_two_active = single;
      all_held = refused && no_wrap state && single;
    })
    else err barrier_failed

unfoldable pub assert_stage_ordering_barrier :
    PlanningWorkflowConfig → Result FlowError StageOrderingProof
assert_stage_ordering_barrier config = do
  start ← init_flow_state config
  reached ← walk (length config.stages) start (probe start (true, true))
  proof_of reached
