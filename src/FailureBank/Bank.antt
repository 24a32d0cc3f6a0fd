-- ===== src/FailureBank/Bank.antt =====
-- Banking and consolidating (index.ts, lines 79 to 178). `now` is the time that the clock gives.
use gateloop.Base.{
  ℕ, suc, ◌+◌, String, Bool, not, ◌&&◌, none, some, List, [], ◌∷◌, ◌++◌, any, filter, find?, length,
  leb, ltb, ◌==◌, Ordering, if◌then◌else◌,
}
use gateloop.Base.Sort.{sort}
use gateloop.Base.Text.{codes, unit_length, includes, trim, same_text}
use gateloop.FailureBank.State.{
  FailureGene, WarningBank, BankConfig, is_active, split_on, tokens_of,
}

pub data BankOutcome : Type 0 where
  added merged bank_full : BankOutcome

abbrev pub active_gene : FailureGene → Bool
active_gene g = is_active g.status

-- A token of the stored signal is a part of the new one.
unfoldable pub overlaps : FailureGene → FailureGene → Bool
overlaps gene g =
    any (λ t. includes (trim t) (codes gene.matching_signal))
      (split_on 124 (codes g.matching_signal))

abbrev longer_avoid : FailureGene → FailureGene → String
longer_avoid new old =
    if ltb (unit_length old.avoid) (unit_length new.avoid) then new.avoid else old.avoid

abbrev pub strengthened : FailureGene → FailureGene → FailureGene
strengthened gene existing = record existing {
  consolidated_count = existing.consolidated_count + 1;
  version = existing.version + 1;
  avoid = longer_avoid gene existing;
}

-- The first active gene whose signal overlaps is changed in place.
abbrev pub merge_first : FailureGene → List FailureGene → List FailureGene
merge_first gene [] = []
merge_first gene (g ∷ gs) =
    let rest = g ∷ merge_first gene gs in
    if active_gene g && overlaps gene g then strengthened gene g ∷ gs else rest

abbrev pub first_occurrence : FailureGene → FailureGene
first_occurrence gene = record gene { consolidated_count = 1 }

unfoldable pub bank_gene :
    String → BankConfig → WarningBank → FailureGene → BankOutcome × WarningBank
bank_gene now cfg bank gene =
    let live = filter active_gene bank.bank in
    elim (find? (overlaps gene) live) [
      | some existing ↦
          (merged, record bank { bank = merge_first gene bank.bank; updated_at = now })
      | none ↦ if leb cfg.max_active_genes (length live) then (bank_full, bank) else (
        added,
        record bank { bank = bank.bank ++ (first_occurrence gene ∷ []); updated_at = now },
      )
    ]

abbrev pub has_index : List ℕ → ℕ → Bool
has_index used i = any (λ n. n == i) used

-- Two lists of tokens have one in common.
unfoldable pub shares : List (List ℕ) → List (List ℕ) → Bool
shares ts us = any (λ t. any (λ u. same_text u t) us) ts

-- The state of the inner loop: the gene that takes others in, the indices used, the number merged.
pub record Pass : Type 0 where
  pub base : FailureGene
  pub used : List ℕ
  pub merged_count : ℕ

abbrev pub absorbed : FailureGene → FailureGene → FailureGene
absorbed g base = record base {
  consolidated_count = base.consolidated_count + g.consolidated_count;
  version = base.version + 1;
  avoid = longer_avoid g base;
}

abbrev pub absorb_one : List (List ℕ) → ℕ → FailureGene → Pass → Pass
absorb_one tokens j g s =
    if has_index s.used j
    then s
    else if shares tokens (tokens_of g.matching_signal)
    then record { base = absorbed g s.base; used = j ∷ s.used; merged_count = suc s.merged_count }
    else s

-- The inner loop, from index `j` on.
abbrev pub absorb : List (List ℕ) → ℕ → List FailureGene → Pass → Pass
absorb tokens j [] s = s
absorb tokens j (g ∷ gs) s = absorb tokens (suc j) gs (absorb_one tokens j g s)

abbrev pub inner_loop : ℕ → FailureGene → List FailureGene → List ℕ → Pass
inner_loop i g gs used =
    absorb (tokens_of g.matching_signal) (suc i) gs
      (record { base = g; used = i ∷ used; merged_count = 0 })

-- The outer loop, from index `i` on: the genes that stay, and the number merged.
abbrev pub merge_from : ℕ → List FailureGene → List ℕ → List FailureGene × ℕ
merge_from i [] used = ([], 0)
merge_from i (g ∷ gs) used =
    let pass = inner_loop i g gs used in
    let rest = merge_from (suc i) gs (if has_index used i then used else pass.used) in
    if has_index used i then rest else (pass.base ∷ rest.0, pass.merged_count + rest.1)

pub record ConsolidateResult : Type 0 where
  pub merged : ℕ
  pub archived : ℕ

module _ (locale_compare : String → String → Ordering) where
  abbrev pub by_id : FailureGene → FailureGene → Ordering
  by_id a b = locale_compare a.id b.id

  abbrev pub sorted_active : WarningBank → List FailureGene
  sorted_active bank = sort by_id (filter active_gene bank.bank)

  unfoldable pub consolidate : WarningBank → ConsolidateResult × WarningBank
  consolidate bank =
      let result = merge_from 0 (sorted_active bank) [] in
      (
        record {
          merged = result.1;
          archived = length (filter (λ g. not (active_gene g)) bank.bank);
        },
        record bank { bank = result.0 },
      )

abbrev pub is_systemic : BankConfig → FailureGene → Bool
is_systemic cfg gene = leb cfg.recurring_threshold gene.consolidated_count
