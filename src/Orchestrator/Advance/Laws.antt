-- ===== src/Orchestrator/Advance/Laws.antt =====
-- What advanceTrackerState changes: the log and the counter on every action, and the stories only by
-- `patchStory`.
use gateloop.Base.{
  ◌+◌, String, Bool, true, false, Option, none, some, List, [], ◌∷◌, ◌++◌, ◌≡◌, refl, ◌≢◌, arith,
  str_eq, eq_iff, if◌then◌else◌, All, ◌⊎◌, Bool-cases, inl, inr, truthy, sym, ap, ◌∙◌,
}
use mathlib.Core.Option
use mathlib.Core.Bool.{false≢true}
use gateloop.Orchestrator.State.{
  RuntimeStory, OrchestratorV0Action, RuntimeDecision, TrackerState, ActionResult,
  select_next_story, issue_contract, develop_patch, run_validation, write_checkpoint,
  mark_story_done, route_debugger, retry_develop, escalate_human, stop_run, stopped, in_progress,
  checkpointed, done, debugging,
}
use gateloop.Orchestrator.Decide.{find_story}
use gateloop.Orchestrator.Advance.{
  patch_story, advance_tracker_state, with_status, verdict_status, escalate_story, active_id,
}

module _ (s : TrackerState) (d : RuntimeDecision) (r : ActionResult) where
  pub advance-log : (advance_tracker_state s d r).decision_log ≡ s.decision_log ++ d ∷ []
  unfolding advance_tracker_state
  advance-log = ground arith

  pub advance-iterations :
      ((advance_tracker_state s d r).iterations_used ≡ s.iterations_used + 1)
      × ((advance_tracker_state s d r).run_iteration_budget ≡ s.run_iteration_budget)
  unfolding advance_tracker_state
  advance-iterations = ground arith

  pub advance_stop :
      d.action ≡ stop_run
      → ((advance_tracker_state s d r).state ≡ stopped)
        × ((advance_tracker_state s d r).stories ≡ s.stories)
        × ((advance_tracker_state s d r).active_story_id ≡ s.active_story_id)
  unfolding advance_tracker_state
  advance_stop h = ground arith

-- A patch that keeps ids is seen by a lookup exactly at the patched id.
pub find_story-patch_story :
    (id : String) (patch : RuntimeStory → RuntimeStory)
    → ((t : RuntimeStory) → (patch t).story_id ≡ t.story_id)
    → (x : String) (stories : List RuntimeStory)
    → find_story x (patch_story id patch stories)
      ≡ Option.map (λ t. if str_eq t.story_id id then patch t else t) (find_story x stories)
unfolding patch_story
find_story-patch_story id patch keeps x [] = refl
find_story-patch_story id patch keeps x (t ∷ stories) =
    step (patched t) (str_eq (patched t).story_id x) (str_eq t.story_id x) refl
      (ap (λ i. str_eq i x) (keeps_id (str_eq t.story_id id)))
      (find_story-patch_story id patch keeps x stories)
  where
    patched : RuntimeStory → RuntimeStory
    patched = λ u. if str_eq u.story_id id then patch u else u

    keeps_id : (b : Bool) → (if b then patch t else t).story_id ≡ t.story_id
    keeps_id true = keeps t
    keeps_id false = refl

    step :
        (u : RuntimeStory) (b c : Bool)
        → patched t ≡ u
        → b ≡ c
        → find_story x (patch_story id patch stories) ≡ Option.map patched (find_story x stories)
        → (if b then some u else find_story x (patch_story id patch stories))
          ≡ Option.map patched (if c then some t else find_story x stories)
    step u true true e h ih = ap some (sym e)
    step u true false e h ih = cc
    step u false true e h ih = cc
    step u false false e h ih = ih

-- What holds of every story still holds after a patch that establishes it.
pub All-patch_story :
    (P Q : RuntimeStory → Type 0) (id : String) (patch : RuntimeStory → RuntimeStory)
    → ((t : RuntimeStory) → t.story_id ≡ id → P t → Q (patch t))
    → ((t : RuntimeStory) → t.story_id ≢ id → P t → Q t)
    → (stories : List RuntimeStory) → All P stories
    → All Q (patch_story id patch stories)
unfolding patch_story
All-patch_story P Q id patch at_id keep [] h = tt
All-patch_story P Q id patch at_id keep (t ∷ stories) (p, h) = (
  elim (Bool-cases (str_eq t.story_id id)) [
    | inl e ↦ rw e (at_id t ((eq_iff t.story_id id).0 e) p)
    | inr e ↦ rw e (keep t (λ n. false≢true (sym e ∙ (eq_iff t.story_id id).1 n)) p)
  ],
  All-patch_story P Q id patch at_id keep stories h,
)

-- What an action does to the story of the active id.
abbrev pub effect :
    OrchestratorV0Action
    → Option RuntimeStory
    → RuntimeDecision
    → ActionResult
    → RuntimeStory
    → RuntimeStory
effect select_next_story found d r t = with_status in_progress t
effect issue_contract found d r t = with_status in_progress t
effect develop_patch none d r t = t
effect develop_patch (some active) d r t = record t { attempts = active.attempts + 1 }
effect run_validation found d r t = with_status (verdict_status r.validation_passed) t
effect write_checkpoint found d r t = with_status checkpointed t
effect mark_story_done found d r t = with_status done t
effect route_debugger found d r t = with_status debugging t
effect retry_develop found d r t = t
effect escalate_human found d r t = escalate_story d.reason t
effect stop_run found d r t = t

-- The stories stay as they are, or those of the active id have the action's effect.
pub advance-stories :
    (s : TrackerState) (d : RuntimeDecision) (r : ActionResult)
    → let id = active_id d s in
      let t = advance_tracker_state s d r in
      (t.stories ≡ s.stories)
      ⊎ (truthy id ≡ true)
        × (t.stories ≡ patch_story id (effect d.action (find_story id s.stories) d r) s.stories)
unfolding advance_tracker_state
advance-stories s d r = ground arith

pub effect-id :
    (a : OrchestratorV0Action) (f : Option RuntimeStory) (d : RuntimeDecision) (r : ActionResult)
    (t : RuntimeStory)
    → (effect a f d r t).story_id ≡ t.story_id
effect-id develop_patch none d r t = refl
effect-id develop_patch (some active) d r t = refl
effect-id _ f d r t = refl
