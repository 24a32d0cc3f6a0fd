-- ===== src/Orchestrator/Decide/Stuck.antt =====
-- What a run that is selecting decides when no story can run.
use gateloop.Base.{
  ◌<◌, String, true, false, some, List, Ordering, ◌≡◌, ◌⊎◌, inl, inr, ◌≢◌, arith, Memᴰ, Bool-cases,
  all, all_iff, All-mem,
}
use gateloop.Orchestrator.State.{
  idle, select, RuntimeStory, done, escalate_human, stop_run, TrackerState, is_done,
}
use gateloop.Orchestrator.Select.{has_blocked_or_escalated_dependency}
use gateloop.Orchestrator.Select.Laws.{IsRunnable, select_none_iff, is_done→done}
use gateloop.Orchestrator.Decide.{decide_select, decide_next_action}

not_all_done_of_mem :
    (stories : List RuntimeStory) (t : RuntimeStory)
    → Memᴰ t stories
    → t.status ≢ done
    → all (λ u. is_done u.status) stories ≡ false
not_all_done_of_mem stories t m n = elim (Bool-cases (all (λ u. is_done u.status) stories)) [
  | inr h ↦ h
  | inl h ↦ absurd (
      n (
        is_done→done t.status (
          All-mem (λ u. is_done u.status ≡ true) stories
            ((all_iff (λ u. is_done u.status) stories).0 h) m)))
]

-- A run that is selecting within its budget, that holds a story which is not done, and none that is
-- runnable, is escalated for a blocked dependency exactly when a waiting story depends on a blocked
-- or escalated one. Otherwise it stops with the reason 'all_stories_complete', although the story is
-- not done.
pub nothing_runnable :
    (locale_compare : String → String → Ordering) (s : TrackerState) (t : RuntimeStory)
    → (s.state ≡ idle) ⊎ (s.state ≡ select)
    → s.iterations_used < s.run_iteration_budget
    → Memᴰ t s.stories
    → t.status ≢ done
    → ((u : RuntimeStory) → Memᴰ u s.stories → ¬ IsRunnable s.stories u)
    → let d = decide_next_action locale_compare s in
      (has_blocked_or_escalated_dependency s.stories ≡ true)
        × (d.action ≡ escalate_human)
        × (d.reason ≡ some "blocked_dependency")
      ⊎ (has_blocked_or_escalated_dependency s.stories ≡ false)
        × (d.action ≡ stop_run)
        × (d.reason ≡ some "all_stories_complete")
unfolding decide_next_action decide_select
nothing_runnable lc s t selecting left m n stuck =
    let none_selected = (select_none_iff lc s.stories).1 stuck in
    let open_story = not_all_done_of_mem s.stories t m n in
    elim (Bool-cases (has_blocked_or_escalated_dependency s.stories)) [
      | inl b ↦ inl (b, ground arith, ground arith)
      | inr b ↦ inr (b, ground arith, ground arith)
    ]
