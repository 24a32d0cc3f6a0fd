-- ===== src/Harness/Gate/Human.antt =====
-- `checkHumanGate` (index.ts, lines 342 to 357). `none` is an exception of `new RegExp`.
use mathlib.Core.Option
use gateloop.Base.{
  ℕ, String, Bool, true, false, Option, none, some, List, [], ◌∷◌, ◌≡◌, All, if◌then◌else◌,
}
use gateloop.Base.Text.{codes}
use gateloop.Harness.State.{
  StoryRecord, OrchestratorAction, apply_patch, escalate_human, HumanGateReason, scope_expansion,
  attempt_budget_exceeded, promotion,
}
use gateloop.Harness.Gate.{glob_source, GateContext, systemic_reason}

module _ (regex_test : List ℕ → List ℕ → Option Bool) where
  abbrev pub matches_glob : String → String → Option Bool
  matches_glob path pattern = regex_test (glob_source (codes pattern)) (codes path)

  abbrev or_later : Bool → Option Bool → Option Bool
  or_later true later = some true
  or_later false later = later

  -- `patterns.some(…)`: the first match decides.
  unfoldable pub some_matches : String → List String → Option Bool
  some_matches path [] = some false
  some_matches path (pattern ∷ patterns) =
      let later = some_matches path patterns in
      elim (matches_glob path pattern) [ none ↦ none | some b ↦ or_later b later ]

  -- The changed files that no pattern matches.
  unfoldable pub outside_files : List String → List String → Option (List String)
  outside_files [] patterns = some []
  outside_files (f ∷ files) patterns =
      let rest = outside_files files patterns in
      elim (some_matches f patterns) [
        | none ↦ none
        | some true ↦ rest
        | some false ↦ Option.map (λ l. f ∷ l) rest
      ]

  abbrev by_outside : Option (List String) → StoryRecord → Option (Option HumanGateReason)
  by_outside none story = none
  by_outside (some []) story = some (systemic_reason story)
  by_outside (some (f ∷ files)) story = some (some scope_expansion)

  abbrev by_patch :
      Option (List String) → Option (List String) → StoryRecord → Option (Option HumanGateReason)
  by_patch (some files) (some patterns) story = by_outside (outside_files files patterns) story
  by_patch (some files) none story = some (systemic_reason story)
  by_patch none patterns story = some (systemic_reason story)

  abbrev by_action :
      OrchestratorAction → GateContext → StoryRecord → Option (Option HumanGateReason)
  by_action apply_patch context story =
      by_patch context.changed_files context.allowed_write_set story
  by_action action context story = some (systemic_reason story)

  abbrev unless_promotion :
      OrchestratorAction → GateContext → StoryRecord → Option (Option HumanGateReason)
  unless_promotion action context story =
      if context.is_promotion then some (some promotion) else by_action action context story

  unfoldable pub check_human_gate :
      OrchestratorAction → StoryRecord → GateContext → Option (Option HumanGateReason)
  check_human_gate escalate_human story context = some (some attempt_budget_exceeded)
  check_human_gate action story context = unless_promotion action context story

  -- Every changed file of the context is matched by its write set, where it has both.
  abbrev pub Inside : GateContext → Type 0
  Inside context =
      (files patterns : List String)
      → context.changed_files ≡ some files
      → context.allowed_write_set ≡ some patterns
      → All (λ f. some_matches f patterns ≡ some true) files
