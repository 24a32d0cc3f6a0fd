-- ===== src/Orchestrator/Run/Stop.antt =====
-- The budget and the decision log of a run, and runs at a human gate.
use gateloop.Base.{
  ℕ, ◌+◌, ◌-◌, ◌<◌, String, List, [], ◌∷◌, ◌++◌, Ordering, ◌≡◌, refl, sym, ◌∙◌, ap, inl, inr, arith,
  length, leb, Bool-cases, suc, subst,
}
use mathlib.Core.List.{append_assoc, append-nil}
use gateloop.Orchestrator.State.{
  TrackerState, ActionResult, RuntimeDecision, stop_run, gate, stopped,
}
use gateloop.Orchestrator.Decide.{active_story, decide_next_action}
use gateloop.Orchestrator.Decide.Laws.{decide_exhausted, decide_cases, Fits}
use gateloop.Orchestrator.Advance.{advance_tracker_state}
use gateloop.Orchestrator.Advance.Laws.{advance-log, advance-iterations, advance_stop}
use gateloop.Orchestrator.Run.{tick, run}

module _ (locale_compare : String → String → Ordering) where
  -- The decisions of the ticks of a run, in order.
  pub decisions : TrackerState → List ActionResult → List RuntimeDecision
  decisions s [] = []
  decisions s (r ∷ rs) =
      decide_next_action locale_compare s ∷ decisions (tick locale_compare s r) rs

  -- A run of n results appends exactly its n decisions to the log, keeps what was logged before, and
  -- counts n iterations, under the budget that it started with.
  pub run-log :
      (s : TrackerState) (rs : List ActionResult)
      → let t = run locale_compare s rs in
        (t.decision_log ≡ s.decision_log ++ decisions s rs)
        × (t.iterations_used ≡ s.iterations_used + length rs)
        × (length (decisions s rs) ≡ length rs)
        × (t.run_iteration_budget ≡ s.run_iteration_budget)
  unfolding run tick decisions
  run-log s [] = (sym (append-nil s.decision_log), omega arith, refl, refl)
  run-log s (r ∷ rs) =
      let d = decide_next_action locale_compare s in
      let (log, used, count, budget) = run-log (tick locale_compare s r) rs in
      let (one, same) = advance-iterations s d r in
      (
        log
            ∙ ap (λ l. l ++ decisions (tick locale_compare s r) rs) (advance-log s d r)
            ∙ append_assoc s.decision_log (d ∷ []) (decisions (tick locale_compare s r) rs),
        omega arith,
        ap suc count,
        budget ∙ same,
      )

  stopped_action :
      (s : TrackerState)
      → s.state ≡ stopped
      → (decide_next_action locale_compare s).action ≡ stop_run
  stopped_action s h = elim (decide_cases locale_compare s) [
    | inl e ↦ e
    | inr e ↦
        subst
          (λ st.
            Fits st s.last_validation_passed (active_story s) (decide_next_action locale_compare s))
          h e
  ]

  tick_stopped :
      (s : TrackerState) (r : ActionResult)
      → s.state ≡ stopped
      → ((tick locale_compare s r).state ≡ stopped)
        × ((tick locale_compare s r).stories ≡ s.stories)
  unfolding tick
  tick_stopped s r h =
      let (st, kept, _) =
        advance_stop s (decide_next_action locale_compare s) r (stopped_action s h) in
      (st, kept)

  -- A stopped run stays stopped, and its stories stay as they are.
  run_stopped :
      (s : TrackerState) (rs : List ActionResult)
      → s.state ≡ stopped
      → ((run locale_compare s rs).state ≡ stopped)
        × ((run locale_compare s rs).stories ≡ s.stories)
  unfolding run
  run_stopped s [] h = (h, refl)
  run_stopped s (r ∷ rs) h =
      let (st, kept) = tick_stopped s r h in
      let (st', kept') = run_stopped (tick locale_compare s r) rs st in (st', kept' ∙ kept)

  -- Whatever the executed actions return, a run is stopped once it has made one tick more than its
  -- budget had left, and it stays stopped.
  pub run_stops :
      (s : TrackerState) (rs : List ActionResult)
      → s.run_iteration_budget - s.iterations_used < length rs
      → (run locale_compare s rs).state ≡ stopped
  unfolding run tick
  run_stops s [] h = absurd (omega arith)
  run_stops s (r ∷ rs) h = elim (Bool-cases (leb s.run_iteration_budget s.iterations_used)) [
    | inl spent ↦
        (run_stopped (tick locale_compare s r) rs
          (advance_stop s (decide_next_action locale_compare s) r
            (decide_exhausted locale_compare s (ground arith))).0).0
    | inr left ↦
        let (one, same) = advance-iterations s (decide_next_action locale_compare s) r in
        run_stops (tick locale_compare s r) rs
          (below s.run_iteration_budget s.iterations_used (length rs) (ground arith) h one same)
  ]
    where
      below : {b' u' : ℕ} (b u n : ℕ) → u < b → b - u < suc n → u' ≡ u + 1 → b' ≡ b → b' - u' < n
      below b u n p q e f = omega arith

  gate_tick :
      (s : TrackerState) (r : ActionResult)
      → s.state ≡ gate
      → ((tick locale_compare s r).state ≡ stopped)
        × ((tick locale_compare s r).stories ≡ s.stories)
  unfolding tick advance_tracker_state
  gate_tick s r h = elim (decide_cases locale_compare s) [
    | inl e ↦ ground arith
    | inr e ↦
        let fits =
          subst
            (λ st.
              Fits st s.last_validation_passed (active_story s)
                (decide_next_action locale_compare s))
            h e in
        ground arith
  ]

  -- At a human gate, cleared or not, the next tick stops the run, and no tick after it changes a
  -- story.
  pub gate_stops :
      (s : TrackerState) (r : ActionResult) (rs : List ActionResult)
      → s.state ≡ gate
      → ((run locale_compare s (r ∷ rs)).state ≡ stopped)
        × ((run locale_compare s (r ∷ rs)).stories ≡ s.stories)
  unfolding run
  gate_stops s r rs h =
      let (st, kept) = gate_tick s r h in
      let (st', kept') = run_stopped (tick locale_compare s r) rs st in (st', kept' ∙ kept)
