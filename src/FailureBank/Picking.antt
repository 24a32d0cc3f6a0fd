-- ===== src/FailureBank/Picking.antt =====
-- The genes picked for a context, and resolving a gene (index.ts, lines 101 to 116 and 180 to 217).
use gateloop.Base.{
  ℕ, String, Bool, true, false, not, ◌&&◌, List, [], length, take, map, ◌==◌, Ordering, compare,
  filter, Option, none, some, get_or,
}
use gateloop.Base.Sort.{sort, or_then}
use gateloop.FailureBank.State.{
  FailureGene, WarningBank, Severity, fatal, recoverable, warning, GeneStatus, resolved, is_active,
  signal_matches,
}

abbrev pub rank : Severity → ℕ
rank fatal = 0
rank recoverable = 1
rank warning = 2

abbrev pub by_severity : FailureGene → FailureGene → Ordering
by_severity a b =
    or_then (compare (rank a.severity) (rank b.severity))
      (compare b.consolidated_count a.consolidated_count)

abbrev is_resolved : GeneStatus → Bool
is_resolved resolved = true
is_resolved _ = false

abbrev has_remedy : Option (List ℕ) → Bool
has_remedy none = false
has_remedy (some text) = not (length text == 0)

module _ (to_lower_case : List ℕ → List ℕ) where
  abbrev pub is_relevant : String → FailureGene → Bool
  is_relevant context g = is_active g.status && signal_matches to_lower_case g context

  unfoldable pub inject_relevant : WarningBank → String → ℕ → List FailureGene
  inject_relevant bank context max_k =
      take max_k (sort by_severity (filter (is_relevant context) bank.bank))

  abbrev pub is_remedy : String → FailureGene → Bool
  is_remedy context g =
      (is_resolved g.status && has_remedy g.proven_remedy) && signal_matches to_lower_case g context

  unfoldable pub preload_proven_remedies : WarningBank → String → ℕ → List (FailureGene × List ℕ)
  preload_proven_remedies bank context max_remedies =
      map (λ g. (g, get_or g.proven_remedy []))
        (take max_remedies (
          sort (λ a b. compare b.consolidated_count a.consolidated_count)
            (filter (is_remedy context) bank.bank)))

unfoldable pub pair_resolved_direction :
    String → FailureGene → String → List ℕ → String → FailureGene
pair_resolved_direction now gene direction_type rationale resolved_in_story = record gene {
  resolved_direction = some (record {
    direction_type = direction_type;
    rationale_summary = take 200 rationale;
    resolved_in_story = resolved_in_story;
  });
  proven_remedy = some (take 200 rationale);
  status = resolved;
  resolved_at = some now;
}
