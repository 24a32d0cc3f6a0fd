-- ===== src/Orchestrator/Decide/Cause.antt =====
-- The causes of a decision, action by action: the state it comes from and whose story it names.
use gateloop.Base.{
  String, Bool, true, false, Option, none, some, Ordering, ◌≡◌, sym, ◌⊎◌, inl, inr, arith, truthy,
  Option-cases, subst,
}
use gateloop.Orchestrator.State.{
  OrchestratorV0State, idle, select, contract, develop, validate, debug, checkpoint, gate,
  RuntimeStory, OrchestratorV0Action, select_next_story, issue_contract, develop_patch,
  run_validation, write_checkpoint, mark_story_done, route_debugger, retry_develop, escalate_human,
  stop_run, RuntimeDecision, TrackerState,
}
use gateloop.Orchestrator.Decide.{active_story, decide_next_action}
use gateloop.Orchestrator.Decide.Laws.{Fits, NamesStory, decide_cases, active_story-id}

-- The decision names the active story, by an id that is not empty.
abbrev pub NamesActive : Option String → Option String → Type 0
NamesActive active_id story_id = (story_id ≡ active_id) × NamesStory story_id

abbrev pub IsSelecting : OrchestratorV0State → Type 0
IsSelecting state = (state ≡ idle) ⊎ (state ≡ select)

abbrev pub Cause :
    OrchestratorV0Action
    → OrchestratorV0State
    → Option Bool
    → Option String
    → Option String
    → Type 0
Cause select_next_story state verdict active_id story_id =
    IsSelecting state × NamesStory story_id ⊎ (state ≡ gate) × (story_id ≡ none)
Cause issue_contract state verdict active_id story_id =
    (state ≡ contract) × ((story_id ≡ none) ⊎ NamesActive active_id story_id)
Cause develop_patch state verdict active_id story_id =
    (state ≡ develop) × NamesActive active_id story_id
Cause run_validation state verdict active_id story_id =
    (state ≡ validate) × (verdict ≡ none) × NamesActive active_id story_id
Cause write_checkpoint state verdict active_id story_id =
    (state ≡ validate) × (verdict ≡ some true) × NamesActive active_id story_id
Cause route_debugger state verdict active_id story_id =
    (state ≡ validate) × (verdict ≡ some false) × NamesActive active_id story_id
Cause retry_develop state verdict active_id story_id =
    (state ≡ debug) × NamesActive active_id story_id
Cause mark_story_done state verdict active_id story_id =
    (state ≡ checkpoint) × NamesActive active_id story_id
Cause escalate_human state verdict active_id story_id =
    IsSelecting state × (story_id ≡ none)
    ⊎ ((state ≡ develop) ⊎ (state ≡ validate)) × NamesActive active_id story_id
Cause stop_run state verdict active_id story_id = Unit

abbrev Link : Option RuntimeStory → Option String → Type 0
Link none active_id = Unit
Link (some t) active_id = (active_id ≡ some t.story_id) × (truthy t.story_id ≡ true)

Fits-Cause :
    (state : OrchestratorV0State) (verdict : Option Bool) (active : Option RuntimeStory)
    (active_id : Option String) (d : RuntimeDecision)
    → Link active active_id
    → Fits state verdict active d
    → Cause d.action state verdict active_id d.story_id
Fits-Cause idle v active id d l f = ground arith
Fits-Cause select v active id d l f = ground arith
Fits-Cause validate none active id d l f = ground arith
Fits-Cause validate (some true) active id d l f = ground arith
Fits-Cause validate (some false) active id d l f = ground arith
Fits-Cause _ v active id d l f = ground arith

stop-Cause :
    (action : OrchestratorV0Action) (state : OrchestratorV0State) (verdict : Option Bool)
    (active_id story_id : Option String)
    → action ≡ stop_run
    → Cause action state verdict active_id story_id
stop-Cause action state verdict active_id story_id e = ground arith

active_story-Link : (s : TrackerState) → Link (active_story s) s.active_story_id
active_story-Link s = elim (Option-cases (active_story s)) [
  | inl e ↦ subst (λ a. Link a s.active_story_id) (sym e) tt
  | inr (t, e) ↦
      let (named, filled, _) = active_story-id s t e in
      subst (λ a. Link a s.active_story_id) (sym e) (named, filled)
]

module _ (locale_compare : String → String → Ordering) where
  -- Every decision of decideNextAction has its cause.
  pub decide-Cause :
      (s : TrackerState)
      → let d = decide_next_action locale_compare s in
        Cause d.action s.state s.last_validation_passed s.active_story_id d.story_id
  decide-Cause s = elim (decide_cases locale_compare s) [
    | inl e ↦
        let d = decide_next_action locale_compare s in
        stop-Cause d.action s.state s.last_validation_passed s.active_story_id d.story_id e
    | inr f ↦
        Fits-Cause s.state s.last_validation_passed (active_story s) s.active_story_id
          (decide_next_action locale_compare s) (active_story-Link s) f
  ]
