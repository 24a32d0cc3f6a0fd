-- ===== src/Orchestrator/Run/Active.antt =====
-- The stories at work during a run, and the active id.
use gateloop.Base.{
  String, Option, some, List, [], ◌∷◌, Ordering, ◌≡◌, sym, ◌∙◌, ◌⊎◌, inl, inr, ◌≢◌, arith, subst,
  eq_iff, All, All-map, All-mem, Memᴰ,
}
use mathlib.Core.Option.{some-injective}
use gateloop.Orchestrator.State.{
  OrchestratorV0State, RuntimeStory, RuntimeStoryStatus, in_progress, validating, debugging, passed,
  checkpointed, mark_story_done, escalate_human, RuntimeDecision, TrackerState, ActionResult,
}
use gateloop.Orchestrator.Decide.{find_story, decide_next_action}
use gateloop.Orchestrator.Decide.Cause.{Cause, IsSelecting, decide-Cause}
use gateloop.Orchestrator.Advance.{patch_story, advance_tracker_state, active_id}
use gateloop.Orchestrator.Advance.Laws.{All-patch_story, effect, effect-id}
use gateloop.Orchestrator.Run.{tick, run}

abbrev pub IsAtWork : RuntimeStoryStatus → Type 0
IsAtWork in_progress = Unit
IsAtWork validating = Unit
IsAtWork debugging = Unit
IsAtWork passed = Unit
IsAtWork checkpointed = Unit
IsAtWork _ = ⊥

-- A story at work is the active one, and none is at work while a story is being selected.
abbrev pub WorksAlone : OrchestratorV0State → Option String → RuntimeStory → Type 0
WorksAlone state active t = IsAtWork t.status → (active ≡ some t.story_id) × (¬ IsSelecting state)

abbrev pub IsSingle : TrackerState → Type 0
IsSingle s = All (WorksAlone s.state s.active_story_id) s.stories

module _ (s : TrackerState) (d : RuntimeDecision) (r : ActionResult)
    (cause : Cause d.action s.state s.last_validation_passed s.active_story_id d.story_id) where
  -- A decision that keeps the run selecting, or leaves the story at work, has this effect.
  advance-selecting : IsSelecting (advance_tracker_state s d r).state → d.action ≡ mark_story_done
  unfolding advance_tracker_state
  advance-selecting h = ground (arith, cause)

  abbrev patched : List RuntimeStory
  patched =
      let id = active_id d s in
      patch_story id (effect d.action (find_story id s.stories) d r) s.stories

  advance-cases :
      let t = advance_tracker_state s d r in
      let id = active_id d s in
      (t.stories ≡ s.stories)
        × (t.active_story_id ≡ s.active_story_id)
        × (d.action ≢ mark_story_done)
      ⊎ (t.stories ≡ patched)
        × (d.action ≢ mark_story_done)
        × (t.active_story_id ≡ some id)
        × ((s.active_story_id ≡ some id) ⊎ IsSelecting s.state)
      ⊎ (t.stories ≡ patched) × (d.action ≡ mark_story_done) × (s.active_story_id ≡ some id)
      ⊎ (t.stories ≡ patched)
        × (d.action ≡ escalate_human)
        × (t.active_story_id ≡ s.active_story_id)
  unfolding advance_tracker_state
  advance-cases = ground (arith, cause, eq_iff (active_id d s) "")

  abbrev Rests : RuntimeStory → Type 0
  Rests t = ¬ IsAtWork t.status

  abbrev Before : RuntimeStory → Type 0
  Before = WorksAlone s.state s.active_story_id

  -- A story at work is the active one, so it carries the active id.
  apart :
      (id : String) (t : RuntimeStory)
      → (s.active_story_id ≡ some id) ⊎ IsSelecting s.state
      → t.story_id ≢ id
      → Before t
      → Rests t
  apart id t (inl a) n h w = n (sym (some-injective id t.story_id (sym a ∙ (h w).0)))
  apart id t (inr selecting) n h w = (h w).1 selecting

  effect-Rests :
      (f : Option RuntimeStory) (t : RuntimeStory)
      → (d.action ≡ mark_story_done) ⊎ (d.action ≡ escalate_human)
      → Rests (effect d.action f d r t)
  effect-Rests f t e = ground arith

  patched-All :
      (Q : RuntimeStory → Type 0)
      → ((t : RuntimeStory)
          → t.story_id ≡ active_id d s
          → Q (effect d.action (find_story (active_id d s) s.stories) d r t))
      → ((t : RuntimeStory) → t.story_id ≢ active_id d s → Before t → Q t)
      → IsSingle s
      → (advance_tracker_state s d r).stories ≡ patched
      → All Q (advance_tracker_state s d r).stories
  patched-All Q at_id keep h e = subst (All Q) (sym e) (
      All-patch_story Before Q (active_id d s)
        (effect d.action (find_story (active_id d s) s.stories) d r) (λ t named _. at_id t named)
        keep s.stories h)

  advance-IsSingle : IsSingle s → IsSingle (advance_tracker_state s d r)
  advance-IsSingle single = elim advance-cases [
    | inl (same, active, unmarked) ↦ subst (All (WorksAlone state new)) (sym same) (
        All-map Before (WorksAlone state new) s.stories
          (λ t h w. (active ∙ (h w).0, (λ x. unmarked (advance-selecting x)))) single)
    | inr (inl (e, unmarked, now, from)) ↦
        patched-All (WorksAlone state new)
          (λ t named _. (
            subst (λ i. new ≡ some i) (sym (effect-id d.action _ d r t ∙ named)) now,
            λ x. unmarked (advance-selecting x),
          ))
          (λ t other h w. absurd (apart (active_id d s) t from other h w)) single e
    | inr (inr (inl (e, mark, was))) ↦
        patched-All (WorksAlone state new) (λ t _ w. absurd (effect-Rests _ t (inl mark) w))
          (λ t other h w. absurd (apart (active_id d s) t (inl was) other h w)) single e
    | inr (inr (inr (e, escalates, active))) ↦
        patched-All (WorksAlone state new) (λ t _ w. absurd (effect-Rests _ t (inr escalates) w))
          (λ t _ h w.
            (active ∙ (h w).0, λ x. escalate_ne_mark (sym escalates ∙ advance-selecting x)))
          single e
  ]
    where
      new : Option String
      new = (advance_tracker_state s d r).active_story_id

      state : OrchestratorV0State
      state = (advance_tracker_state s d r).state

      escalate_ne_mark : escalate_human ≢ mark_story_done
      escalate_ne_mark e = cc

module _ (locale_compare : String → String → Ordering) where
  run-IsSingle :
      (s : TrackerState) (rs : List ActionResult) → IsSingle s → IsSingle (run locale_compare s rs)
  unfolding run tick
  run-IsSingle s [] h = h
  run-IsSingle s (r ∷ rs) h =
      run-IsSingle (tick locale_compare s r) rs (
        advance-IsSingle s (decide_next_action locale_compare s) r (decide-Cause locale_compare s)
          h)

  -- In a run that starts with no story at work, whatever the executed actions return, two stories at
  -- work at the same time have the same id, and none is at work while a story is being selected.
  pub at_work_unique :
      (s : TrackerState) (rs : List ActionResult) (t u : RuntimeStory)
      → All (λ x. ¬ IsAtWork x.status) s.stories
      → let end = run locale_compare s rs in
        Memᴰ t end.stories
        → Memᴰ u end.stories
        → IsAtWork t.status
        → IsAtWork u.status
        → (t.story_id ≡ u.story_id) × (¬ IsSelecting end.state)
  at_work_unique s rs t u h mt mu wt wu =
      let end = run locale_compare s rs in
      let single = run-IsSingle s rs (All-map _ _ s.stories (λ x rests w. absurd (rests w)) h) in
      let P : RuntimeStory → Type 0 = WorksAlone end.state end.active_story_id in
      let (a, b) = All-mem P end.stories single mt wt in
      let (c, _) = All-mem P end.stories single mu wu in
      (some-injective t.story_id u.story_id (sym a ∙ c), b)
