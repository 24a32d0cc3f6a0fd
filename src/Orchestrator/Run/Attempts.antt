-- ===== src/Orchestrator/Run/Attempts.antt =====
-- The develop attempts of a story during a run.
use gateloop.Base.{
  ◌≢◌, map, All, All-mem, All-of_mem, ArePairwise, Memᴰ, find?-mem, ◌≤◌, ◌<◌, String, Bool, true,
  false, Option, none, some, List, [], ◌∷◌, Ordering, ◌≡◌, refl, sym, ◌∙◌, ap, inl, inr, arith,
  Bool-cases, subst, get_or, str_eq, eq_iff, if◌then◌else◌,
}
use mathlib.Core.Option
use mathlib.Core.Option.{some-injective}
use gateloop.Orchestrator.State.{
  OrchestratorV0State, develop, validate, RuntimeStory, OrchestratorV0Action, develop_patch,
  RuntimeDecision, TrackerState, ActionResult,
}
use gateloop.Orchestrator.Decide.{find_story, active_story, decide_next_action}
use gateloop.Orchestrator.Decide.Laws.{Fits, decide_cases, active_story-id, find_story-id}
use gateloop.Orchestrator.Advance.{active_id, patch_story}
use gateloop.Orchestrator.Advance.Laws.{find_story-patch_story, effect, effect-id, advance-stories}
use gateloop.Orchestrator.Run.{tick, run}

-- Every story that its id finds has used at most its attempt budget.
abbrev pub InBudget : List RuntimeStory → Type 0
InBudget stories =
    (id : String) (t : RuntimeStory)
    → find_story id stories ≡ some t
    → t.attempts ≤ t.attempt_budget

all-InBudget :
    (stories : List RuntimeStory)
    → All (λ t. t.attempts ≤ t.attempt_budget) stories
    → InBudget stories
all-InBudget stories h id t e =
    All-mem (λ u. u.attempts ≤ u.attempt_budget) stories h
      (find?-mem (λ u. str_eq u.story_id id) stories e).0

abbrev name_of : RuntimeStory → String
name_of t = t.story_id

mem-ids :
    (stories : List RuntimeStory) (t : RuntimeStory)
    → Memᴰ t stories
    → Memᴰ t.story_id (map name_of stories)
mem-ids [] t m = elim m [ ]
mem-ids (s ∷ stories) t (Memᴰ.head e) = Memᴰ.head (ap name_of e)
mem-ids (s ∷ stories) t (Memᴰ.tail m) = Memᴰ.tail (mem-ids stories t m)

-- A story with an id of its own is the one that its id finds.
find_story_distinct :
    (stories : List RuntimeStory) (t : RuntimeStory)
    → ArePairwise ◌≢◌ (map name_of stories)
    → Memᴰ t stories
    → find_story t.story_id stories ≡ some t
find_story_distinct [] t d m = elim m [ ]
find_story_distinct (s ∷ stories) t d (Memᴰ.head e) =
    let here : str_eq s.story_id t.story_id ≡ true =
      (eq_iff s.story_id t.story_id).1 (sym (ap name_of e)) in
    rw here (ap some (sym e))
find_story_distinct (s ∷ stories) t d (Memᴰ.tail m) =
    let other = All-mem (λ x. s.story_id ≢ x) (map name_of stories) d.0 (mem-ids stories t m) in
    elim (Bool-cases (str_eq s.story_id t.story_id)) [
      | inl e ↦ absurd (other ((eq_iff s.story_id t.story_id).0 e))
      | inr e ↦ rw e (find_story_distinct stories t d.1 m)
    ]

patch_story-ids :
    (id : String) (patch : RuntimeStory → RuntimeStory)
    → ((t : RuntimeStory) → (patch t).story_id ≡ t.story_id)
    → (stories : List RuntimeStory)
    → map name_of (patch_story id patch stories) ≡ map name_of stories
unfolding patch_story
patch_story-ids id patch keeps [] = refl
patch_story-ids id patch keeps (s ∷ stories) = elim (Bool-cases (str_eq s.story_id id)) [
  | inl e ↦ rw (e, keeps s, patch_story-ids id patch keeps stories) refl
  | inr e ↦ rw (e, patch_story-ids id patch keeps stories) refl
]

-- Only a develop attempt changes the counters, and it takes the count of the found story.
effect-attempts :
    (a : OrchestratorV0Action) (f : Option RuntimeStory) (d : RuntimeDecision) (r : ActionResult)
    (t : RuntimeStory)
    → (a ≡ develop_patch → f ≡ some t → t.attempts < t.attempt_budget)
    → f ≡ some t
    → t.attempts ≤ t.attempt_budget
    → (effect a f d r t).attempts ≤ (effect a f d r t).attempt_budget
effect-attempts develop_patch none d r t below e h = h
effect-attempts develop_patch (some active) d r t below e h =
    let same : active ≡ t = some-injective active t e in
    let under = below refl e in rw (ap (λ (u : RuntimeStory). u.attempts) same) (omega arith)
effect-attempts _ f d r t below e h = h

Fits-develop :
    (state : OrchestratorV0State) (v : Option Bool) (active : Option RuntimeStory)
    (d : RuntimeDecision)
    → d.action ≡ develop_patch
    → Fits state v active d
    → (u : RuntimeStory) × (active ≡ some u)
      × (d.story_id ≡ some u.story_id)
      × (u.attempts < u.attempt_budget)
Fits-develop develop v none d a f = ground arith
Fits-develop develop v (some u) d a f = (u, refl, ground arith, ground arith)
Fits-develop validate none active d a f = ground arith
Fits-develop validate (some true) active d a f = ground arith
Fits-develop validate (some false) active d a f = ground arith
Fits-develop _ v active d a f = ground arith

module _ (locale_compare : String → String → Ordering) where
  -- A develop decision is made about a story below its budget.
  develop_below :
      (s : TrackerState) (t : RuntimeStory)
      → let d = decide_next_action locale_compare s in
        d.action ≡ develop_patch
        → find_story (active_id d s) s.stories ≡ some t
        → t.attempts < t.attempt_budget
  develop_below s t a e = elim (decide_cases locale_compare s) [
    | inl stop ↦ cc
    | inr fits ↦
        let (u, active, names, below) =
          Fits-develop s.state s.last_validation_passed (active_story s)
            (decide_next_action locale_compare s) a fits in
        let (_, _, found) = active_story-id s u active in
        let id : active_id (decide_next_action locale_compare s) s ≡ u.story_id =
          ap (λ o. get_or o (get_or s.active_story_id "")) names in
        let same : u ≡ t =
          some-injective u t (sym found ∙ ap (λ x. find_story x s.stories) (sym id) ∙ e) in
        subst (λ w. w.attempts < w.attempt_budget) same below
  ]

  tick-InBudget :
      (s : TrackerState) (r : ActionResult)
      → InBudget s.stories
      → InBudget (tick locale_compare s r).stories
  unfolding tick
  tick-InBudget s r h x t e = elim (advance-stories s d r) [
    | inl same ↦ h x t (subst (λ l. find_story x l ≡ some t) same e)
    | inr (_, patched) ↦
        let (u, old, new) = (Option.map-eq-some_iff _ _).0 (
          sym (
            find_story-patch_story id (effect d.action (find_story id s.stories) d r)
              (effect-id d.action (find_story id s.stories) d r) x s.stories)
          ∙ subst (λ l. find_story x l ≡ some t) patched e) in
        subst (λ w. w.attempts ≤ w.attempt_budget) new (patched_fits u old)
  ]
    where
      d : RuntimeDecision
      d = decide_next_action locale_compare s

      id : String
      id = active_id d s

      patched_fits :
          (u : RuntimeStory)
          → find_story x s.stories ≡ some u
          → let w =
              if str_eq u.story_id id then effect d.action (find_story id s.stories) d r u else u in
            w.attempts ≤ w.attempt_budget
      patched_fits u old = elim (Bool-cases (str_eq u.story_id id)) [
        | inl b ↦
            let here : x ≡ id =
              sym (find_story-id x s.stories u old) ∙ (eq_iff u.story_id id).0 b in
            let found : find_story id s.stories ≡ some u =
              subst (λ i. find_story i s.stories ≡ some u) here old in
            rw b (
              effect-attempts d.action (find_story id s.stories) d r u (develop_below s u) found
                (h x u old))
        | inr b ↦ rw b (h x u old)
      ]

  found-InBudget :
      (s : TrackerState) (rs : List ActionResult)
      → InBudget s.stories
      → InBudget (run locale_compare s rs).stories
  unfolding run
  found-InBudget s [] h = h
  found-InBudget s (r ∷ rs) h = found-InBudget (tick locale_compare s r) rs (tick-InBudget s r h)

  tick-ids :
      (s : TrackerState) (r : ActionResult)
      → map name_of (tick locale_compare s r).stories ≡ map name_of s.stories
  unfolding tick
  tick-ids s r = elim (advance-stories s d r) [
    | inl same ↦ ap (map name_of) same
    | inr (_, patched) ↦
        ap (map name_of) patched
        ∙ patch_story-ids (active_id d s)
            (effect d.action (find_story (active_id d s) s.stories) d r)
            (effect-id d.action (find_story (active_id d s) s.stories) d r) s.stories
  ]
    where
      d : RuntimeDecision
      d = decide_next_action locale_compare s

  run-ids :
      (s : TrackerState) (rs : List ActionResult)
      → map name_of (run locale_compare s rs).stories ≡ map name_of s.stories
  unfolding run
  run-ids s [] = refl
  run-ids s (r ∷ rs) = run-ids (tick locale_compare s r) rs ∙ tick-ids s r

  -- In a run from stories with distinct ids that are all within their attempt budgets, every story is
  -- within its attempt budget, whatever the executed actions return.
  pub run-InBudget :
      (s : TrackerState) (rs : List ActionResult)
      → ArePairwise ◌≢◌ (map name_of s.stories)
      → All (λ t. t.attempts ≤ t.attempt_budget) s.stories
      → All (λ t. t.attempts ≤ t.attempt_budget) (run locale_compare s rs).stories
  run-InBudget s rs distinct h =
      let end = (run locale_compare s rs).stories in
      let apart : ArePairwise ◌≢◌ (map name_of end) =
        subst (ArePairwise ◌≢◌) (sym (run-ids s rs)) distinct in
      let within = found-InBudget s rs (all-InBudget s.stories h) in
      All-of_mem (λ t. t.attempts ≤ t.attempt_budget) end
        (λ t m. within t.story_id t (find_story_distinct end t apart m))
