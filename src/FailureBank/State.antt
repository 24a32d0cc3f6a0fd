-- ===== src/FailureBank/State.antt =====
-- The types of the bank and the tokens of a signal (index.ts, lines 10 to 72). Signals and
-- contexts are read as code points, which are split, trimmed and searched as in the source; a rationale is
-- given as its UTF-16 units. `to_lower_case` is the runtime's `toLowerCase`.
use gateloop.Base.{
  ℕ, String, Bool, true, false, ◌&&◌, Option, List, [], ◌∷◌, ◌++◌, map, any, drop, ltb, ◌==◌,
  length, if◌then◌else◌,
}
use gateloop.Base.Text.{codes, includes, trim}

pub data FailureType : Type 0 where
  test_failure build_error type_error runtime_error validation_fail : FailureType
  regression timeout scope_error skill_failure unknown : FailureType

pub data RepairOperator : Type 0 where
  rebind insert_prereq substitute rewire bypass no_operator : RepairOperator

pub data Severity : Type 0 where
  fatal recoverable warning : Severity

pub data GeneStatus : Type 0 where
  active resolved superseded : GeneStatus

pub record ResolvedDirection : Type 0 where
  pub direction_type : String
  pub rationale_summary : List ℕ
  pub resolved_in_story : String

pub record FailureGene : Type 0 where
  pub id : String
  pub matching_signal : String
  pub summary : String
  pub strategy : String
  pub avoid : String
  pub failure_type : FailureType
  pub repair_operator : RepairOperator
  pub story_id : String
  pub skill_id : Option String
  pub severity : Severity
  pub version : ℕ
  pub created_at : String
  pub consolidated_count : ℕ
  pub resolved_at : Option String
  pub status : GeneStatus
  pub resolved_direction : Option ResolvedDirection
  pub proven_remedy : Option (List ℕ)

pub record WarningBank : Type 0 where
  pub schema_version : String
  pub updated_at : String
  pub bank : List FailureGene

pub record BankConfig : Type 0 where
  pub max_active_genes : ℕ
  pub max_genes_per_turn : ℕ
  pub recurring_threshold : ℕ

abbrev pub default_config : BankConfig
default_config = record { max_active_genes = 50; max_genes_per_turn = 5; recurring_threshold = 2 }

abbrev pub is_active : GeneStatus → Bool
is_active active = true
is_active _ = false

abbrev pub onto_first : ℕ → List (List ℕ) → List (List ℕ)
onto_first c [] = (c ∷ []) ∷ []
onto_first c (w ∷ ws) = (c ∷ w) ∷ ws

-- `split` at a separator of one character.
abbrev pub split_on : ℕ → List ℕ → List (List ℕ)
split_on sep [] = [] ∷ []
split_on sep (c ∷ s) =
    let rest = split_on sep s in if c == sep then [] ∷ rest else onto_first c rest

abbrev pub join_with : List ℕ → List (List ℕ) → List ℕ
join_with sep [] = []
join_with sep (w ∷ []) = w
join_with sep (w ∷ v ∷ ws) = w ++ (sep ++ join_with sep (v ∷ ws))

-- The trimmed tokens of a signal, which stand between bars.
unfoldable pub tokens_of : String → List (List ℕ)
tokens_of signal = map trim (split_on 124 (codes signal))

abbrev pub token_value : List ℕ → List ℕ
token_value token = trim (join_with (58 ∷ []) (drop 1 (split_on 58 (trim token))))

unfoldable pub signal_matches : (List ℕ → List ℕ) → FailureGene → String → Bool
signal_matches to_lower_case gene context =
    any
      (λ token.
        let value = to_lower_case (token_value token) in
        ltb 0 (length value) && includes value (to_lower_case (codes context)))
      (split_on 124 (codes gene.matching_signal))
