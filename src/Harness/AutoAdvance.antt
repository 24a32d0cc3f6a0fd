-- ===== src/Harness/AutoAdvance.antt =====
-- Whether the run goes on to the next story by itself (index.ts, lines 182 to 221 and 297 to 338).
use mathlib.Core.Option.{some-injective}
use gateloop.Base.{
  ◌<◌, String, Bool, true, false, not, Option, none, some, get_or, List, [], ◌∷◌, map, any, find?,
  find?-mem, find?-none, All-mem, ◌≡◌, refl, ap, ◌∙◌, ◌≢◌, ◌↔◌, arith, str_eq, eq_iff,
  if◌then◌else◌, Ordering, Memᴰ, Bool-cases, inl, inr, subst,
}
use gateloop.Base.Text.{codes, includes, lower}
use gateloop.Base.Comparator.{IsComparator}
use gateloop.Harness.State.{StoryRecord, RunBudget, HumanGateReason, within_run}
use gateloop.Harness.Select.{select_next_story, IsNext, selected-IsNext}
use gateloop.Harness.Convergence.{
  ConvergenceState, converging, stalled, diverging, ConvergenceVerdict,
}

pub data AutoAdvanceStop : Type 0 where
  trust_boundary epic_complete budget_exceeded real_api_calls : AutoAdvanceStop
  project_diverging project_stalled : AutoAdvanceStop

pub record AutoAdvanceInput : Type 0 where
  pub stories : List StoryRecord
  pub current_epic_id : String
  pub run_budget : RunBudget
  pub pending_human_gate : Option HumanGateReason
  pub next_step_needs_real_api : Option Bool
  pub convergence : Option ConvergenceVerdict

pub record AutoAdvanceDecision : Type 0 where
  pub advance : Bool
  pub next_story_id : Option String
  pub stop_reason : Option AutoAdvanceStop
  pub diagnosis : Option String

-- The alternatives of the regular expression, whose class `[-_ ]?` is written out.
abbrev spend_words : List String
spend_words =
    "real_api_calls" ∷ "gated" ∷ "realmodel" ∷ "real-model" ∷ "real_model" ∷ "real model" ∷ "billed"
    ∷ []

abbrev mentions_spend : Option String → Bool
mentions_spend none = false
mentions_spend (some reason) =
    any (λ word. includes (codes word) (map lower (codes reason))) spend_words

abbrev reason_of : Option StoryRecord → Option String
reason_of none = none
reason_of (some s) = s.blocked_reason

unfoldable pub story_needs_real_api : Option StoryRecord → Bool
story_needs_real_api story = mentions_spend (reason_of story)

abbrev pub stop : AutoAdvanceStop → Option String → AutoAdvanceDecision
stop reason diagnosis = record {
  advance = false;
  next_story_id = none;
  stop_reason = some reason;
  diagnosis = diagnosis;
}

abbrev pub advance_to : String → AutoAdvanceDecision
advance_to id = record {
  advance = true;
  next_story_id = some id;
  stop_reason = none;
  diagnosis = none;
}

-- An empty reason is left out.
abbrev diagnosed : String → Option String
diagnosed reason = if str_eq reason "" then none else some reason

abbrev pub other_epic : String → Option StoryRecord → Bool
other_epic epic none = false
other_epic epic (some s) = not (str_eq s.epic_id epic)

abbrev pub story_named : List StoryRecord → String → Option StoryRecord
story_named stories id = find? (λ (s : StoryRecord). str_eq s.story_id id) stories

abbrev pub needs_spend : AutoAdvanceInput → String → Bool
needs_spend input id =
    get_or input.next_step_needs_real_api (story_needs_real_api (story_named input.stories id))

abbrev pub decide_next : AutoAdvanceInput → Option String → AutoAdvanceDecision
decide_next input none = stop epic_complete none
decide_next input (some id) =
    if other_epic input.current_epic_id (story_named input.stories id)
    then stop epic_complete none
    else if needs_spend input id
    then stop real_api_calls none
    else advance_to id

abbrev pub decide_gate :
    AutoAdvanceInput → Option String → Option HumanGateReason → AutoAdvanceDecision
decide_gate input next (some reason) = stop trust_boundary none
decide_gate input next none = decide_next input next

abbrev pub decide_convergence :
    AutoAdvanceInput → Option String → Option ConvergenceVerdict → AutoAdvanceDecision
decide_convergence input next none = decide_gate input next input.pending_human_gate
decide_convergence input next (some v) = elim v.verdict [
  | diverging ↦ stop project_diverging (diagnosed v.reason)
  | stalled ↦ stop project_stalled (diagnosed v.reason)
  | converging ↦ decide_gate input next input.pending_human_gate
]

abbrev pub Converges : Option ConvergenceVerdict → Type 0
Converges none = Unit
Converges (some v) = v.verdict ≡ converging

module _ (locale_compare : String → String → Ordering) where
  unfoldable pub decide_auto_advance : AutoAdvanceInput → AutoAdvanceDecision
  decide_auto_advance input =
      if within_run input.run_budget
      then decide_convergence input (select_next_story locale_compare input.stories)
          input.convergence
      else stop budget_exceeded none

  -- What an advance to a story rests on.
  pub record MayAdvance (input : AutoAdvanceInput) (id : String) : Type 0 where
    pub in_budget : input.run_budget.iterations_used < input.run_budget.run_iteration_budget
    pub converges : Converges input.convergence
    pub no_gate : input.pending_human_gate ≡ none
    pub selected : select_next_story locale_compare input.stories ≡ some id
    pub in_epic : other_epic input.current_epic_id (story_named input.stories id) ≡ false
    pub no_spend : needs_spend input id ≡ false

  advance_injective : {x id : String} → advance_to x ≡ advance_to id → x ≡ id
  advance_injective {x} {id} e =
      some-injective x id (ap (λ (d : AutoAdvanceDecision). d.next_story_id) e)

  next_allowed :
      (input : AutoAdvanceInput) (next : Option String) (id : String)
      → decide_next input next ≡ advance_to id
      → (next ≡ some id)
        × (other_epic input.current_epic_id (story_named input.stories id) ≡ false)
        × (needs_spend input id ≡ false)
  next_allowed input none id e = absurd (stops (ap (λ (d : AutoAdvanceDecision). d.advance) e))
    where
      stops : false ≢ true
      stops h = cc
  next_allowed input (some x) id e =
      elim (Bool-cases (other_epic input.current_epic_id (story_named input.stories x))) [
        | inl o ↦ absurd (stopped (rw o at e))
        | inr o ↦ elim (Bool-cases (needs_spend input x)) [
          | inl n ↦ absurd (stopped' (rw (o, n) at e))
          | inr n ↦
              let same : x ≡ id = advance_injective (rw (o, n) at e) in
              (
                ap some same,
                subst (λ y. other_epic input.current_epic_id (story_named input.stories y) ≡ false)
                    same o,
                subst (λ y. needs_spend input y ≡ false) same n,
              )
        ]
      ]
    where
      stopped : stop epic_complete none ≢ advance_to id
      stopped h = let bad : false ≡ true = ap (λ (d : AutoAdvanceDecision). d.advance) h in cc

      stopped' : stop real_api_calls none ≢ advance_to id
      stopped' h = let bad : false ≡ true = ap (λ (d : AutoAdvanceDecision). d.advance) h in cc

  -- A stop is no advance.
  stop_differs :
      (reason : AutoAdvanceStop) (diagnosis : Option String) (id : String)
      → stop reason diagnosis ≢ advance_to id
  stop_differs reason diagnosis id h =
      let bad : false ≡ true = ap (λ (d : AutoAdvanceDecision). d.advance) h in cc

  gate_allowed :
      (input : AutoAdvanceInput) (next : Option String) (gate : Option HumanGateReason)
      (id : String)
      → decide_gate input next gate ≡ advance_to id
      → (gate ≡ none) × (decide_next input next ≡ advance_to id)
  gate_allowed input next none id e = (refl, e)
  gate_allowed input next (some r) id e = absurd (stop_differs trust_boundary none id e)

  convergence_allowed :
      (input : AutoAdvanceInput) (next : Option String) (c : Option ConvergenceVerdict)
      (id : String)
      → decide_convergence input next c ≡ advance_to id
      → Converges c × (decide_gate input next input.pending_human_gate ≡ advance_to id)
  convergence_allowed input next none id e = (tt, e)
  convergence_allowed input next (some v) id e = by_verdict v.verdict refl e
    where
      by_verdict :
          (w : ConvergenceState)
          → v.verdict ≡ w
          → (elim w [
            | diverging ↦ stop project_diverging (diagnosed v.reason)
            | stalled ↦ stop project_stalled (diagnosed v.reason)
            | converging ↦ decide_gate input next input.pending_human_gate
          ])
            ≡ advance_to id
          → (v.verdict ≡ converging)
            × (decide_gate input next input.pending_human_gate ≡ advance_to id)
      by_verdict converging q h = (q, h)
      by_verdict stalled q h = absurd (stop_differs project_stalled _ id h)
      by_verdict diverging q h = absurd (stop_differs project_diverging _ id h)

  pub advance_iff :
      (input : AutoAdvanceInput) (id : String)
      → (decide_auto_advance input ≡ advance_to id) ↔ MayAdvance input id
  unfolding decide_auto_advance
  advance_iff input id = (forward, backward)
    where
      next : Option String
      next = select_next_story locale_compare input.stories

      budgeted :
          decide_auto_advance input ≡ advance_to id
          → (within_run input.run_budget ≡ true)
            × (decide_convergence input next input.convergence ≡ advance_to id)
      budgeted e = elim (Bool-cases (within_run input.run_budget)) [
        | inl b ↦ (b, (rw b at e))
        | inr b ↦ absurd (stop_differs budget_exceeded none id (rw b at e))
      ]

      forward : decide_auto_advance input ≡ advance_to id → MayAdvance input id
      forward e =
          let (b, e1) = budgeted e in
          let (c, e2) = convergence_allowed input next input.convergence id e1 in
          let (g, e3) = gate_allowed input next input.pending_human_gate id e2 in
          let (s, o, n) = next_allowed input next id e3 in
          record {
            in_budget = ground arith;
            converges = c;
            no_gate = g;
            selected = s;
            in_epic = o;
            no_spend = n;
          }

      through :
          (c : Option ConvergenceVerdict)
          → Converges c
          → decide_convergence input next c ≡ decide_gate input next input.pending_human_gate
      through none h = refl
      through (some v) h = rw h refl

      backward : MayAdvance input id → decide_auto_advance input ≡ advance_to id
      backward m =
          let b : within_run input.run_budget ≡ true = ground (arith, m.in_budget) in
          let last : decide_next input (some id) ≡ advance_to id =
            rw (m.in_epic, m.no_spend) refl in
          rw b (
            through input.convergence m.converges
            ∙ ap (decide_gate input next) m.no_gate
            ∙ ap (decide_next input) m.selected
            ∙ last)

  find-some :
      (stories : List StoryRecord) (s : StoryRecord)
      → Memᴰ s stories
      → story_named stories s.story_id ≢ none
  find-some stories s m e =
      let none_named =
        All-mem _ stories (find?-none (λ (x : StoryRecord). str_eq x.story_id s.story_id) stories e)
          m in
      let same : str_eq s.story_id s.story_id ≡ true = (eq_iff s.story_id s.story_id).1 refl in cc

  -- With a comparator for `localeCompare`, the story that the run goes on to is in the list: a record
  -- of this id is of the current epic, and one is todo with every dependency done, first among such.
  pub advances_in_epic :
      IsComparator locale_compare
      → (input : AutoAdvanceInput) (id : String) → decide_auto_advance input ≡ advance_to id
      → ((s : StoryRecord) × Memᴰ s input.stories
          × (s.story_id ≡ id)
          × (s.epic_id ≡ input.current_epic_id))
        × IsNext locale_compare input.stories id
  advances_in_epic l input id e = (of_epic (story_named input.stories id) refl m.in_epic, chosen)
    where
      m : MayAdvance input id
      m = (advance_iff input id).0 e

      chosen : IsNext locale_compare input.stories id
      chosen = selected-IsNext locale_compare l input.stories id m.selected

      of_epic :
          (o : Option StoryRecord)
          → story_named input.stories id ≡ o
          → other_epic input.current_epic_id o ≡ false
          → (s : StoryRecord) × Memᴰ s input.stories
            × (s.story_id ≡ id)
            × (s.epic_id ≡ input.current_epic_id)
      of_epic none q h = absurd (
          find-some input.stories chosen.story chosen.listed
            (ap (story_named input.stories) chosen.named ∙ q))
      of_epic (some s) q h =
          let (listed, named) =
            find?-mem (λ (x : StoryRecord). str_eq x.story_id id) input.stories q in
          (
            s,
            listed,
            (eq_iff s.story_id id).0 named,
            (eq_iff s.epic_id input.current_epic_id).0 (ground arith),
          )
