-- ===== src/FailureBank/Tests.antt =====
-- Runs on small inputs: three genes, of which two share a token.
use Prim.Native.String.{compare}
use gateloop.Base.{
  ArePairwise, ℕ, ◌+◌, ◌≤◌, min, String, List, [], ◌∷◌, ◌≡◌, ◌⊎◌, refl, arith, length, All, Memᴰ,
  none,
}
use gateloop.Base.Sort.{sort}
use gateloop.FailureBank.State.{
  tokens_of, FailureGene, WarningBank, BankConfig, Severity, fatal, warning, active, test_failure,
  no_operator, default_config,
}
use gateloop.FailureBank.Bank.{consolidate, shares}
use gateloop.FailureBank.Disjoint.{Apart, IsActive, consolidate-Apart}
use gateloop.FailureBank.History.{
  Operation, banked, consolidated, perform_all, recorded, active_genes, perform_all-recorded,
}
use gateloop.Base.Tally.{Tally}
use gateloop.FailureBank.Picking.{inject_relevant}
use gateloop.FailureBank.Best.{IsRelevant, NotAfter, inject_best}

abbrev gene : String → String → Severity → FailureGene
gene id signal severity = record {
  id = id;
  matching_signal = signal;
  summary = "";
  strategy = "";
  avoid = "Do not.";
  failure_type = test_failure;
  repair_operator = no_operator;
  story_id = "STORY-1";
  skill_id = none;
  severity = severity;
  version = 1;
  created_at = "";
  consolidated_count = 1;
  resolved_at = none;
  status = active;
  resolved_direction = none;
  proven_remedy = none;
}

abbrev bank : WarningBank
bank = record {
  schema_version = "failure_bank/v1";
  updated_at = "";
  bank = gene "b" "err:x|file:a" warning ∷ gene "a" "file:a" fatal ∷ gene "c" "err:z" fatal ∷ [];
}

abbrev small : BankConfig
small = record default_config { max_active_genes = 3 }

consolidated_two : length (consolidate compare bank).1.bank ≡ 2
unfolding consolidate shares sort tokens_of
consolidated_two = refl

consolidate-Apart_example :
    let after = (consolidate compare bank).1 in
    All IsActive after.bank × ArePairwise Apart after.bank
consolidate-Apart_example = consolidate-Apart compare bank

abbrev operations : List Operation
operations = banked "now" (gene "d" "err:z" fatal) ∷ consolidated ∷ []

perform_all-recorded_example :
    let (n, after) = perform_all compare small bank operations in
    (recorded after ≡ recorded bank + n) × (length (active_genes after) ≤ 3)
perform_all-recorded_example =
    perform_all-recorded compare small bank operations (refl, (tt, tt)) (omega arith)

abbrev same : List ℕ → List ℕ
same text = text

inject_best_example :
    let picked = inject_relevant same bank "in a" 1 in
    All (λ g. Memᴰ g bank.bank × IsRelevant same "in a" g) picked
    × ArePairwise NotAfter picked
    × ((n : ℕ) × Tally (IsRelevant same "in a") bank.bank n × (length picked ≡ min 1 n))
    × ((g : FailureGene)
        → Memᴰ g bank.bank
        → IsRelevant same "in a" g
        → Memᴰ g picked ⊎ All (λ p. NotAfter p g) picked)
inject_best_example = inject_best same bank "in a" 1
