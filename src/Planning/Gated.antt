-- ===== src/Planning/Gated.antt =====
-- Runs of the flow: the ordering under any calls, and how far complete checklists take it.
use gateloop.Base.{
  ℕ, zero, suc, ◌+◌, ◌≤◌, ◌<◌, min, Bool, true, false, ◌&&◌, none, some, List, [], ◌∷◌, ◌≡◌, refl,
  sym, ap, ◌∙◌, arith, length, get_elem?, set, filter, ltb, if◌then◌else◌, subst, Bool-cases, inl,
  inr, ◌⊎◌,
}
use gateloop.Base.Integers.{ℤ, pos, negsuc}
use gateloop.Base.Result.{Result, ok, err, threw, ◌>>=◌}
use gateloop.Planning.State.{
  Stage, PlanningWorkflowConfig, ChecklistResult, PlanningFlowState, FlowError, already_complete,
}
use gateloop.Planning.Flow.{
  initial_statuses, init_from, init_flow_state, active_index, activate_stage, advance,
}
use gateloop.Planning.Progress.{statuses_at, initial_statuses_at}
use gateloop.Planning.Order.{IsAt, at, no_activation_in_flow, active_index-at, advance-at}
use gateloop.Planning.Gate.{
  failing, refused_result, advanced_result, advance_complete, GatedAdvanceResult,
  set_stage_checklist, advance_gated,
}

-- The calls that return a new state.
pub data FlowCall : Type 0 where
  call_advance : FlowCall
  call_activate : ℤ → FlowCall
  call_checklist : ℤ → ChecklistResult → FlowCall
  call_gated : ChecklistResult → FlowCall

-- A call that throws returns no state: the caller keeps the one it has.
abbrev kept : PlanningFlowState → Result FlowError PlanningFlowState → PlanningFlowState
kept state (ok next) = next
kept state (err e) = state

abbrev kept_gated : PlanningFlowState → Result FlowError GatedAdvanceResult → PlanningFlowState
kept_gated state (ok r) = r.state
kept_gated state (err e) = state

abbrev pub perform : PlanningFlowState → FlowCall → PlanningFlowState
perform state call_advance = kept state (advance state)
perform state (call_activate i) = kept state (activate_stage state i)
perform state (call_checklist i result) = kept state (set_stage_checklist state i result)
perform state (call_gated result) = kept_gated state (advance_gated state result)

abbrev pub perform_all : PlanningFlowState → List FlowCall → PlanningFlowState
perform_all state [] = state
perform_all state (c ∷ calls) = perform_all (perform state c) calls

-- The call may move the flow on.
abbrev pub may_advance : FlowCall → Bool
may_advance call_advance = true
may_advance (call_activate i) = false
may_advance (call_checklist i result) = false
may_advance (call_gated result) = result.complete

-- The state where the stages, and the statuses, are those of the flow with `d` stages done.
abbrev pub Reaches : List Stage → ℕ → PlanningFlowState → Type 0
Reaches stages d state = (state.stages ≡ stages) × (state.statuses ≡ statuses_at d stages)

kept_err :
    (state : PlanningFlowState) (r : Result FlowError PlanningFlowState)
    → threw r ≡ true
    → kept state r ≡ state
kept_err state (ok a) h = cc
kept_err state (err e) h = refl

get_stage :
    (stages : List Stage) (i : ℕ) → i < length stages → (s : Stage) × (get_elem? stages i ≡ some s)
get_stage [] i h = absurd (omega arith)
get_stage (s ∷ stages) zero h = (s, refl)
get_stage (s ∷ stages) (suc i) h = get_stage stages i (omega arith)

-- How far one call takes a flow with `d` of `n` stages done.
abbrev pub moved_by : FlowCall → ℕ → ℕ → ℕ
moved_by c d n = if may_advance c && ltb d n then suc d else d

-- The state with a checklist recorded on stage `i`.
abbrev pub with_checklist : ℕ → ChecklistResult → PlanningFlowState → PlanningFlowState
with_checklist i r state = record state { checklists = set state.checklists i (some r) }

-- A gated advance with `d` stages done and one left: the checklist is recorded either way, and the
-- flow moves on exactly when it is complete.
pub gated-at :
    (d : ℕ) (state : PlanningFlowState) (r : ChecklistResult)
    → IsAt d state
    → d < length state.stages
    → (g : GatedAdvanceResult) × (advance_gated state r ≡ ok g)
      × (g.advanced ≡ r.complete)
      × (g.state ≡ (
          if r.complete then at (suc d) (with_checklist d r state) else with_checklist d r state))
      × (g.failing_items ≡ (if r.complete then [] else failing r))
unfolding advance_gated set_stage_checklist
gated-at d state r h below =
    let (s, listed) = get_stage state.stages d below in by_complete s listed (Bool-cases r.complete)
  where
    recorded : PlanningFlowState
    recorded = with_checklist d r state

    index : active_index state ≡ some d
    index = ground (arith, active_index-at d state h)

    stored : set_stage_checklist state (pos d) r ≡ ok recorded
    stored = ground arith

    moved : advance recorded ≡ ok (at (suc d) recorded)
    moved = ground (arith, advance-at d recorded h)

    reduced :
        (s : Stage)
        → get_elem? state.stages d ≡ some s
        → (b : Bool) → r.complete ≡ b
        → advance_gated state r ≡ advance_complete b d s.id recorded r
    reduced s listed b e =
        let start : advance_gated state r ≡ advance_complete r.complete d s.id recorded r =
          rw (index, listed, stored) refl in
        start ∙ ap (λ x. advance_complete x d s.id recorded r) e

    by_complete :
        (s : Stage)
        → get_elem? state.stages d ≡ some s
        → (r.complete ≡ true) ⊎ (r.complete ≡ false)
        → (g : GatedAdvanceResult) × (advance_gated state r ≡ ok g)
          × (g.advanced ≡ r.complete)
          × (g.state ≡ (if r.complete then at (suc d) recorded else recorded))
          × (g.failing_items ≡ (if r.complete then [] else failing r))
    by_complete s listed (inl e) = (
      advanced_result d s.id (at (suc d) recorded) r,
      reduced s listed true e ∙ ap (λ m. m >>= λ next. ok (advanced_result d s.id next r)) moved,
      sym e,
      (rw e refl),
      (rw e refl),
    )
    by_complete s listed (inr e) =
        (refused_result s.id recorded r, reduced s listed false e, sym e, (rw e refl), (rw e refl))

-- With every stage done a gated advance throws.
gated_end :
    (d : ℕ) (state : PlanningFlowState) (r : ChecklistResult)
    → IsAt d state
    → length state.stages ≤ d
    → advance_gated state r ≡ err already_complete
unfolding advance_gated
gated_end d state r h over =
    let index : active_index state ≡ none = ground (arith, active_index-at d state h) in
    rw index refl

set_checklist-Reaches :
    (state : PlanningFlowState) (d : ℕ) (i : ℤ) (r : ChecklistResult)
    → IsAt d state
    → Reaches state.stages d (kept state (set_stage_checklist state i r))
unfolding set_stage_checklist
set_checklist-Reaches state d (negsuc k) r h = (refl, h)
set_checklist-Reaches state d (pos i) r h = elim (Bool-cases (ltb i (length state.stages))) [
  | inl e ↦ rw e (refl, h)
  | inr e ↦ rw e (refl, h)
]

advance-Reaches :
    (state : PlanningFlowState) (d : ℕ)
    → IsAt d state
    → Reaches state.stages
        (if ltb d (length state.stages) then suc d else d)
        (kept state (advance state))
advance-Reaches state d h = elim (Bool-cases (ltb d (length state.stages))) [
  | inl e ↦
      let m : advance state ≡ ok (at (suc d) state) = ground (arith, advance-at d state h) in
      rw (m, e) (refl, refl)
  | inr e ↦
      let m : advance state ≡ err already_complete = ground (arith, advance-at d state h) in
      rw (m, e) (refl, h)
]

gated-Reaches :
    (state : PlanningFlowState) (d : ℕ) (r : ChecklistResult)
    → IsAt d state
    → Reaches state.stages
        (if r.complete && ltb d (length state.stages) then suc d else d)
        (kept_gated state (advance_gated state r))
gated-Reaches state d r h = elim (Bool-cases (ltb d (length state.stages))) [
  | inl e ↦
      let (g, made, _, reached, _) = gated-at d state r h (ground arith) in
      rw made (subst (Reaches state.stages _) (sym reached) (moved r.complete e))
  | inr e ↦
      rw (gated_end d state r h (ground arith))
        (refl, h ∙ ap (λ k. statuses_at k state.stages) (ground arith))
]
  where
    moved :
        (b : Bool)
        → ltb d (length state.stages) ≡ true
        → Reaches state.stages
            (if b && ltb d (length state.stages) then suc d else d)
            (if b then at (suc d) (with_checklist d r state) else with_checklist d r state)
    moved true e = rw e (refl, refl)
    moved false e = (refl, h)

perform-Reaches :
    (state : PlanningFlowState) (d : ℕ) (c : FlowCall)
    → IsAt d state
    → Reaches state.stages (moved_by c d (length state.stages)) (perform state c)
perform-Reaches state d call_advance h = advance-Reaches state d h
perform-Reaches state d (call_activate i) h =
    subst (Reaches state.stages d)
      (sym (kept_err state (activate_stage state i) (no_activation_in_flow d state i h).1))
      (refl, h)
perform-Reaches state d (call_checklist i r) h = set_checklist-Reaches state d i r h
perform-Reaches state d (call_gated r) h = gated-Reaches state d r h

abbrev pub advancing : List FlowCall → ℕ
advancing calls = length (filter may_advance calls)

perform_all-Reaches :
    (state : PlanningFlowState) (d : ℕ) (calls : List FlowCall)
    → d ≤ length state.stages
    → IsAt d state
    → Reaches state.stages
        (min (d + advancing calls) (length state.stages))
        (perform_all state calls)
perform_all-Reaches state d [] below h =
    (refl, h ∙ ap (λ k. statuses_at k state.stages) (omega arith))
perform_all-Reaches state d (c ∷ calls) below h =
    let n : ℕ = length state.stages in
    let (same, reached) = perform-Reaches state d c h in
    let len : length (perform state c).stages ≡ n = ap length same in
    let (same', reached') =
      perform_all-Reaches (perform state c) (moved_by c d n) calls (ground arith)
        (reached ∙ ap (statuses_at (moved_by c d n)) (sym same)) in
    let steps : min (moved_by c d n + advancing calls) (length (perform state c).stages)
        ≡ min (d + advancing (c ∷ calls)) n =
      ground arith in
    (same' ∙ same, reached' ∙ ap (statuses_at _) same ∙ ap (λ k. statuses_at k state.stages) steps)

init-Reaches :
    (config : PlanningWorkflowConfig) (start : PlanningFlowState) (stages : List Stage)
    → init_from config stages ≡ ok start
    → Reaches stages 0 start
init-Reaches config start [] e = cc
init-Reaches config start (s ∷ stages) e =
    let same : start.stages ≡ s ∷ stages = cc in
    let initial : start.statuses ≡ initial_statuses (s ∷ stages) = cc in
    (same, initial ∙ initial_statuses_at (s ∷ stages))

-- From the initial state of a configuration, after any calls, thrown ones included: the number of
-- stages done is that of the calls that may move the flow on (plain advances, and gated ones with a
-- complete checklist), at most all of them; these are the first stages, the next one is active, and
-- the others are todo.
pub flow-Reaches :
    (config : PlanningWorkflowConfig) (start : PlanningFlowState) (calls : List FlowCall)
    → init_flow_state config ≡ ok start
    → Reaches config.stages (min (advancing calls) (length config.stages)) (perform_all start calls)
unfolding init_flow_state
flow-Reaches config start calls e =
    let (same, initial) = init-Reaches config start config.stages e in
    let (same', reached) =
      perform_all-Reaches start 0 calls (omega arith) (initial ∙ ap (statuses_at 0) (sym same)) in
    (
      same' ∙ same,
      reached ∙ ap (statuses_at _) same ∙ ap (λ k. statuses_at k config.stages) (bound same),
    )
  where
    bound :
        start.stages ≡ config.stages
        → min (0 + advancing calls) (length start.stages)
          ≡ min (advancing calls) (length config.stages)
    bound same =
        let len : length start.stages ≡ length config.stages = ap length same in omega arith
