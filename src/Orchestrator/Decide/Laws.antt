-- ===== src/Orchestrator/Decide/Laws.antt =====
-- From which states each decision of decideNextAction comes, and about which story it is.
use gateloop.Base.{
  ℕ, ◌≤◌, ◌<◌, String, Bool, true, false, Option, none, some, List, Ordering, ◌≡◌, refl, sym, ap,
  ◌⊎◌, inl, inr, arith, find?-mem, str_eq, eq_iff, truthy, Bool-cases, leb, le→leb, lt→not_leb,
  subst,
}
use gateloop.Orchestrator.State.{
  OrchestratorV0State, idle, select, contract, develop, validate, debug, checkpoint, gate, stopped,
  RuntimeStory, OrchestratorV0Action, select_next_story, issue_contract, develop_patch,
  run_validation, write_checkpoint, mark_story_done, route_debugger, retry_develop, escalate_human,
  stop_run, RuntimeDecision, TrackerState,
}
use gateloop.Orchestrator.Decide.{
  optional_id, find_story, active_story_at, active_story, decide_select, decide_in,
  decide_next_action,
}

-- The active story carries the active id, which is not empty.
active_story_at-id :
    (id : Option String) (stories : List RuntimeStory) (t : RuntimeStory)
    → active_story_at id stories ≡ some t
    → (id ≡ some t.story_id) × (truthy t.story_id ≡ true) × (find_story t.story_id stories ≡ some t)
active_story_at-id none stories t e = cc
active_story_at-id (some id) stories t e = elim (Bool-cases (truthy id)) [
  | inl h ↦
      let found : find_story id stories ≡ some t = ground arith in
      let named : t.story_id ≡ id =
        (eq_iff t.story_id id).0 (find?-mem (λ s. str_eq s.story_id id) stories found).1 in
      (
        ap some (sym named),
        subst (λ x. truthy x ≡ true) (sym named) h,
        subst (λ x. find_story x stories ≡ some t) (sym named) found,
      )
  | inr h ↦ ground arith
]

pub active_story-id :
    (s : TrackerState) (t : RuntimeStory)
    → active_story s ≡ some t
    → (s.active_story_id ≡ some t.story_id)
      × (truthy t.story_id ≡ true)
      × (find_story t.story_id s.stories ≡ some t)
unfolding active_story
active_story-id s t e = active_story_at-id s.active_story_id s.stories t e

pub find_story-id :
    (x : String) (stories : List RuntimeStory) (t : RuntimeStory)
    → find_story x stories ≡ some t
    → t.story_id ≡ x
find_story-id x stories t e =
    (eq_iff t.story_id x).0 (find?-mem (λ s. str_eq s.story_id x) stories e).1

abbrev pub NamesStory : Option String → Type 0
NamesStory none = ⊥
NamesStory (some id) = truthy id ≡ true

abbrev pub Selects : RuntimeDecision → Type 0
Selects d =
    (d.action ≡ select_next_story) × NamesStory d.story_id
    ⊎ (d.action ≡ escalate_human) × (d.story_id ≡ none)
    ⊎ (d.action ≡ stop_run)

-- A decision about the active story, by one of the actions of `P`.
abbrev pub On :
    Option RuntimeStory → (RuntimeStory → OrchestratorV0Action → Type 0) → RuntimeDecision → Type 0
On none P d = d.action ≡ stop_run
On (some t) P d = (d.story_id ≡ some t.story_id) × P t d.action

-- The action of a validation verdict; a failure goes to the debugger only within the attempt budget.
abbrev pub AfterVerdict : Option Bool → RuntimeStory → OrchestratorV0Action → Type 0
AfterVerdict none t a = a ≡ run_validation
AfterVerdict (some true) t a = a ≡ write_checkpoint
AfterVerdict (some false) t a =
    (a ≡ route_debugger) × (t.attempts < t.attempt_budget)
    ⊎ (a ≡ escalate_human) × (t.attempt_budget ≤ t.attempts)

abbrev pub Fits : OrchestratorV0State → Option Bool → Option RuntimeStory → RuntimeDecision → Type 0
Fits idle v active d = Selects d
Fits select v active d = Selects d
Fits contract v active d = (d.action ≡ issue_contract) × (d.story_id ≡ optional_id active)
Fits develop v active d =
    On active
      (λ t a.
        (a ≡ develop_patch) × (t.attempts < t.attempt_budget)
        ⊎ (a ≡ escalate_human) × (t.attempt_budget ≤ t.attempts))
      d
Fits validate v active d = On active (AfterVerdict v) d
Fits debug v active d = On active (λ t a. a ≡ retry_develop) d
Fits checkpoint v active d = On active (λ t a. a ≡ mark_story_done) d
Fits gate v active d = (d.action ≡ select_next_story) × (d.story_id ≡ none) ⊎ (d.action ≡ stop_run)
Fits stopped v active d = d.action ≡ stop_run

module _ (locale_compare : String → String → Ordering) where
  -- The decisions of the states 'idle' and 'select'.
  decide_select-Selects :
      (stories : List RuntimeStory) (tick : ℕ) → Selects (decide_select locale_compare stories tick)
  unfolding decide_select
  decide_select-Selects stories tick = ground arith

  -- The decisions of the other states, given the active story.
  decide_in-Fits :
      (state : OrchestratorV0State) (s : TrackerState) (active : Option RuntimeStory)
      → Fits state s.last_validation_passed active (decide_in locale_compare state s active)
  unfolding decide_in
  decide_in-Fits idle s active = decide_select-Selects s.stories s.iterations_used
  decide_in-Fits select s active = decide_select-Selects s.stories s.iterations_used
  decide_in-Fits _ s active = ground arith

  -- Below the run budget the decision fits the state and the active story; at the budget the run
  -- is stopped.
  pub decide-Fits :
      (s : TrackerState)
      → s.iterations_used < s.run_iteration_budget
      → Fits s.state s.last_validation_passed (active_story s) (decide_next_action locale_compare s)
  unfolding decide_next_action
  decide-Fits s h =
      rw (lt→not_leb s.run_iteration_budget s.iterations_used h)
        (decide_in-Fits s.state s (active_story s))

  pub decide_exhausted :
      (s : TrackerState)
      → s.run_iteration_budget ≤ s.iterations_used
      → (decide_next_action locale_compare s).action ≡ stop_run
  unfolding decide_next_action
  decide_exhausted s h = rw (le→leb s.run_iteration_budget s.iterations_used h) refl

  -- Either the run is stopped, or the decision fits.
  pub decide_cases :
      (s : TrackerState)
      → ((decide_next_action locale_compare s).action ≡ stop_run)
        ⊎ Fits s.state s.last_validation_passed
            (active_story s)
            (decide_next_action locale_compare s)
  decide_cases s = elim (Bool-cases (leb s.run_iteration_budget s.iterations_used)) [
    | inl h ↦ inl (decide_exhausted s (ground arith))
    | inr h ↦ inr (decide-Fits s (ground arith))
  ]
