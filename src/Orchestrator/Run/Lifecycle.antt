-- ===== src/Orchestrator/Run/Lifecycle.antt =====
-- A story's way through the six ticks from its selection on.
use gateloop.Base.{
  ℕ, suc, ◌+◌, ◌≤◌, ◌<◌, String, Bool, true, false, Option, none, some, List, [], ◌∷◌, Ordering,
  ◌≡◌, refl, ◌⊎◌, inl, inr, arith, truthy, eq_iff, Bool-cases, all, all_iff, All-mem,
}
use gateloop.Orchestrator.State.{
  OrchestratorV0State, idle, select, contract, develop, validate, checkpoint, RuntimeStory, todo,
  ready, in_progress, passed, checkpointed, done, TrackerState, ActionResult, is_done,
}
use gateloop.Orchestrator.Select.{select_next_runtime_story}
use gateloop.Orchestrator.Select.Laws.{select_none_iff}
use gateloop.Orchestrator.Decide.{find_story, decide_select, decide_next_action}
use gateloop.Orchestrator.Decide.Laws.{find_story-id}
use gateloop.Orchestrator.Advance.{advance_tracker_state, with_status}
use gateloop.Orchestrator.Advance.Laws.{find_story-patch_story}
use gateloop.Orchestrator.Run.{tick, run}

-- The run is in `state` with story `id` active, found as `t`, and has `n` iterations left.
record IsAt (state : OrchestratorV0State) (verdict : Option Bool) (id : String) (t : RuntimeStory)
    (n : ℕ) (s : TrackerState) : Type 0 where
  in_state : s.state ≡ state
  active : s.active_story_id ≡ some id
  verdict_is : s.last_validation_passed ≡ verdict
  found : find_story id s.stories ≡ some t
  left : s.iterations_used + n ≤ s.run_iteration_budget

-- While some story is selected, not all are done.
not_all_done :
    (locale_compare : String → String → Ordering) (stories : List RuntimeStory) (id : String)
    → select_next_runtime_story locale_compare stories ≡ some id
    → all (λ t. is_done t.status) stories ≡ false
not_all_done locale_compare stories id e = elim (Bool-cases (all (λ t. is_done t.status) stories)) [
  | inr h ↦ h
  | inl h ↦ absurd (nothing h)
]
  where
    is_done→not_waiting :
        (t : RuntimeStory) → is_done t.status ≡ true → (t.status ≡ todo) ⊎ (t.status ≡ ready) → ⊥
    is_done→not_waiting t d w = ground arith

    nothing : all (λ t. is_done t.status) stories ≡ true → ⊥
    nothing h =
        let idle : select_next_runtime_story locale_compare stories ≡ none =
          (select_none_iff locale_compare stories).1 (λ t m runs.
            is_done→not_waiting t
              (All-mem (λ u. is_done u.status ≡ true) stories
                ((all_iff (λ u. is_done u.status) stories).0 h) m)
              runs.0) in
        cc

module _ (locale_compare : String → String → Ordering) (id : String) (filled : truthy id ≡ true)
    (t : RuntimeStory) (named : t.story_id ≡ id) where
  select_step :
      (n : ℕ) (s : TrackerState) (r : ActionResult)
      → (s.state ≡ idle) ⊎ (s.state ≡ select)
      → select_next_runtime_story locale_compare s.stories ≡ some id
      → find_story id s.stories ≡ some t
      → s.iterations_used + suc n ≤ s.run_iteration_budget
      → r.success ≡ true
      → IsAt contract none id (with_status in_progress t) n (tick locale_compare s r)
  unfolding tick decide_next_action decide_select advance_tracker_state
  select_step n s r selecting chosen found left ok = ground (
    arith,
    eq_iff t.story_id id,
    not_all_done locale_compare s.stories id,
    find_story-patch_story id (with_status in_progress) (λ u. refl) id s.stories,
  )

  contract_step :
      (n : ℕ) (s : TrackerState) (r : ActionResult)
      → IsAt contract none id t (suc n) s
      → IsAt develop none id (with_status in_progress t) n (tick locale_compare s r)
  unfolding tick decide_next_action advance_tracker_state
  contract_step n s r at = ground (
    arith,
    eq_iff t.story_id id,
    find_story-patch_story id (with_status in_progress) (λ u. refl) id s.stories,
  )

  develop_step :
      (n : ℕ) (s : TrackerState) (r : ActionResult)
      → t.attempts < t.attempt_budget
      → IsAt develop none id t (suc n) s
      → IsAt validate none id (record t { attempts = t.attempts + 1 }) n (tick locale_compare s r)
  unfolding tick decide_next_action advance_tracker_state
  develop_step n s r below at = ground (
    arith,
    eq_iff t.story_id id,
    find_story-patch_story id (λ u. record u { attempts = t.attempts + 1 }) (λ u. refl) id
        s.stories,
  )

  validation_step :
      (n : ℕ) (s : TrackerState) (r : ActionResult)
      → r.validation_passed ≡ some true
      → IsAt validate none id t (suc n) s
      → IsAt validate (some true) id (with_status passed t) n (tick locale_compare s r)
  unfolding tick decide_next_action advance_tracker_state
  validation_step n s r ok at = ground (
    arith,
    eq_iff t.story_id id,
    find_story-patch_story id (with_status passed) (λ u. refl) id s.stories,
  )

  checkpoint_step :
      (n : ℕ) (s : TrackerState) (r : ActionResult)
      → IsAt validate (some true) id t (suc n) s
      → IsAt checkpoint (some true) id (with_status checkpointed t) n (tick locale_compare s r)
  unfolding tick decide_next_action advance_tracker_state
  checkpoint_step n s r at = ground (
    arith,
    eq_iff t.story_id id,
    find_story-patch_story id (with_status checkpointed) (λ u. refl) id s.stories,
  )

  done_step :
      (n : ℕ) (s : TrackerState) (r : ActionResult)
      → IsAt checkpoint (some true) id t (suc n) s
      → let end = tick locale_compare s r in
        (end.state ≡ select)
        × (end.active_story_id ≡ none)
        × (find_story id end.stories ≡ some (with_status done t))
  unfolding tick decide_next_action advance_tracker_state
  done_step n s r at = ground (
    arith,
    eq_iff t.story_id id,
    find_story-patch_story id (with_status done) (λ u. refl) id s.stories,
  )

-- A run that is idle or selecting, with six iterations left, and whose selected story has a non-empty
-- id and is below its attempt budget, has that story done after six ticks of which the first succeeds and the fourth returns a
-- passed validation: with one more attempt counted, no other field of it but the status changed, and
-- the run selecting again with no active story.
pub story_gets_done :
    (locale_compare : String → String → Ordering) (s : TrackerState) (id : String)
    (t : RuntimeStory) (r1 r2 r3 r4 r5 r6 : ActionResult)
    → (s.state ≡ idle) ⊎ (s.state ≡ select)
    → select_next_runtime_story locale_compare s.stories ≡ some id
    → truthy id ≡ true
    → find_story id s.stories ≡ some t
    → t.attempts < t.attempt_budget
    → s.iterations_used + 6 ≤ s.run_iteration_budget
    → r1.success ≡ true
    → r4.validation_passed ≡ some true
    → let end = run locale_compare s (r1 ∷ r2 ∷ r3 ∷ r4 ∷ r5 ∷ r6 ∷ []) in
      (end.state ≡ select)
      × (end.active_story_id ≡ none)
      × (find_story id end.stories ≡ some (record t { status = done; attempts = t.attempts + 1 }))
unfolding run
story_gets_done lc s id t r1 r2 r3 r4 r5 r6 selecting chosen filled found below left selects
      passes =
    let named = find_story-id id s.stories t found in
    let s1 = tick lc s r1 in
    let s2 = tick lc s1 r2 in
    let s3 = tick lc s2 r3 in
    let s4 = tick lc s3 r4 in
    let s5 = tick lc s4 r5 in
    let a1 = select_step lc id filled t named 5 s r1 selecting chosen found left selects in
    let a2 = contract_step lc id filled (with_status in_progress t) named 4 s1 r2 a1 in
    let a3 = develop_step lc id filled (with_status in_progress t) named 3 s2 r3 below a2 in
    let u = record t { status = in_progress; attempts = t.attempts + 1 } in
    let a4 = validation_step lc id filled u named 2 s3 r4 passes a3 in
    let a5 = checkpoint_step lc id filled (with_status passed u) named 1 s4 r5 a4 in
    done_step lc id filled (with_status checkpointed u) named 0 s5 r6 a5
