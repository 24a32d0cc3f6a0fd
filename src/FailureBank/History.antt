-- ===== src/FailureBank/History.antt =====
-- Sequences of banking and consolidating: how many failures the bank stands for.
use gateloop.Base.{
  ℕ, suc, ◌+◌, ◌<◌, ◌≤◌, String, List, [], ◌∷◌, ◌++◌, ◌≡◌, refl, sym, ap, ◌∙◌, subst, inl, inr,
  arith, length-append, Bool-cases, length, All, Ordering, filter, find?, leb, Option, none, some,
  sum_of,
}
use gateloop.Base.Sort.{sort, sum_of-sort, length-sort}
use gateloop.FailureBank.State.{FailureGene, WarningBank, BankConfig}
use gateloop.FailureBank.Bank.{
  BankOutcome, bank_full, active_gene, overlaps, merge_first, first_occurrence, bank_gene, by_id,
  consolidate,
}
use gateloop.FailureBank.Merging.{counts, merge_counts, merge_merged}
use gateloop.FailureBank.Disjoint.{IsActive, consolidate-Apart}

abbrev pub active_genes : WarningBank → List FailureGene
active_genes bank = filter active_gene bank.bank

-- The failures that the active genes stand for.
abbrev pub recorded : WarningBank → ℕ
recorded bank = sum_of counts (active_genes bank)

filter-All : (gs : List FailureGene) → All IsActive gs → filter active_gene gs ≡ gs
filter-All [] h = refl
filter-All (g ∷ gs) h = rw h.0 (ap (λ xs. g ∷ xs) (filter-All gs h.1))

-- The gene that is merged into counts for one more.
merge_first_one :
    (gene e : FailureGene) (gs : List FailureGene)
    → find? (overlaps gene) (filter active_gene gs) ≡ some e
    → let after = filter active_gene (merge_first gene gs) in
      (sum_of counts after ≡ suc (sum_of counts (filter active_gene gs)))
      × (length after ≡ length (filter active_gene gs))
merge_first_one gene e [] h = let bad : none ≡ some e = h in cc
merge_first_one gene e (g ∷ gs) h = elim (Bool-cases (active_gene g)) [
  | inr a ↦
      let found : find? (overlaps gene) (filter active_gene gs) ≡ some e = rw a at h in
      rw (a, a) (merge_first_one gene e gs found)
  | inl a ↦ elim (Bool-cases (overlaps gene g)) [
    | inl o ↦ rw (a, o, a) ((omega arith), refl)
    | inr o ↦
        let found : find? (overlaps gene) (filter active_gene gs) ≡ some e = rw (a, o) at h in
        let (total, size) = merge_first_one gene e gs found in
        rw (a, o, a) ((omega (arith, total)), ap suc size)
  ]
]

pub data Operation : Type 0 where
  banked : String → FailureGene → Operation
  consolidated : Operation

-- A failure is recorded unless the bank is full.
abbrev recording : BankOutcome → ℕ
recording bank_full = 0
recording _ = 1

-- The state of the abstract view: the failures recorded.
abbrev Steps : BankConfig → WarningBank → ℕ → WarningBank → Type 0
Steps cfg bank n after =
    (recorded after ≡ recorded bank + n)
    × (length (active_genes bank) ≤ cfg.max_active_genes
        → length (active_genes after) ≤ cfg.max_active_genes)

-- A new active gene stands last among the active ones.
filter-first_occurrence :
    (gene : FailureGene) (gs : List FailureGene)
    → IsActive gene
    → filter active_gene (gs ++ (first_occurrence gene ∷ []))
      ≡ filter active_gene gs ++ (first_occurrence gene ∷ [])
filter-first_occurrence gene [] h = rw h refl
filter-first_occurrence gene (g ∷ gs) h = elim (Bool-cases (active_gene g)) [
  | inl a ↦ rw a (ap (λ xs. g ∷ xs) (filter-first_occurrence gene gs h))
  | inr a ↦ rw a (filter-first_occurrence gene gs h)
]

sum_of-append :
    (f : FailureGene → ℕ) (gs hs : List FailureGene)
    → sum_of f (gs ++ hs) ≡ sum_of f gs + sum_of f hs
sum_of-append f [] hs = omega arith
sum_of-append f (g ∷ gs) hs = omega (arith, sum_of-append f gs hs)

bank_gene-Steps :
    (now : String) (cfg : BankConfig) (bank : WarningBank) (gene : FailureGene)
    → IsActive gene
    → let (outcome, after) = bank_gene now cfg bank gene in Steps cfg bank (recording outcome) after
unfolding bank_gene
bank_gene-Steps now cfg bank gene h = by_found (find? (overlaps gene) (active_genes bank)) refl
  where
    by_found :
        (o : Option FailureGene)
        → find? (overlaps gene) (active_genes bank) ≡ o
        → let (outcome, after) = bank_gene now cfg bank gene in
          Steps cfg bank (recording outcome) after
    by_found (some e) q =
        let (total, size) = merge_first_one gene e bank.bank q in
        rw (bank_gene, q) ((omega (arith, total)), (λ k. omega (arith, size)))
    by_found none q = elim (Bool-cases (leb cfg.max_active_genes (length (active_genes bank)))) [
      | inl full ↦ rw (bank_gene, q, full) ((omega arith), (λ k. k))
      | inr room ↦
          let new = first_occurrence gene in
          let kept = filter-first_occurrence gene bank.bank h in
          let total = sum_of-append counts (active_genes bank) (new ∷ []) in
          let size = length-append (active_genes bank) (new ∷ []) in
          let few : length (active_genes bank) < cfg.max_active_genes = ground arith in
          rw (bank_gene, q, room)
            (
              ap (sum_of counts) kept ∙ total,
              (λ _.
                  subst (λ n. n ≤ cfg.max_active_genes) (sym (ap length kept ∙ size))
                    (omega arith)),
            )
    ]

module _ (locale_compare : String → String → Ordering) where
  consolidate-Steps :
      (cfg : BankConfig) (bank : WarningBank) → Steps cfg bank 0 (consolidate locale_compare bank).1
  unfolding consolidate
  consolidate-Steps cfg bank =
      let (all_active, _) = consolidate-Apart locale_compare bank in
      let kept = filter-All (consolidate locale_compare bank).1.bank all_active in
      (
        ap (sum_of counts) kept ∙ total,
        (λ h.
            subst (λ n. n ≤ cfg.max_active_genes) (sym (ap length kept)) (omega (arith, size, h))),
      )
    where
      live : List FailureGene
      live = active_genes bank

      sorted : List FailureGene
      sorted = sort (by_id locale_compare) live

      total : sum_of counts (consolidate locale_compare bank).1.bank ≡ recorded bank + 0
      total = merge_counts sorted ∙ sum_of-sort (by_id locale_compare) counts live ∙ omega arith

      size : length (consolidate locale_compare bank).1.bank ≤ length live
      size = omega (arith, merge_merged sorted, length-sort (by_id locale_compare) live)

  abbrev pub perform : BankConfig → WarningBank → Operation → ℕ × WarningBank
  perform cfg bank (banked now gene) =
      let (outcome, after) = bank_gene now cfg bank gene in (recording outcome, after)
  perform cfg bank consolidated = (0, (consolidate locale_compare bank).1)

  -- The failures that were recorded by the operations, and the bank after them.
  abbrev pub perform_all : BankConfig → WarningBank → List Operation → ℕ × WarningBank
  perform_all cfg bank [] = (0, bank)
  perform_all cfg bank (op ∷ ops) =
      let (n, after) = perform cfg bank op in
      let (m, last) = perform_all cfg after ops in (n + m, last)

  abbrev pub BanksActive : Operation → Type 0
  BanksActive (banked now gene) = IsActive gene
  BanksActive consolidated = Unit

  perform-Steps :
      (cfg : BankConfig) (bank : WarningBank) (op : Operation)
      → BanksActive op
      → let (n, after) = perform cfg bank op in Steps cfg bank n after
  perform-Steps cfg bank (banked now gene) h = bank_gene-Steps now cfg bank gene h
  perform-Steps cfg bank consolidated h = consolidate-Steps cfg bank

  -- After any sequence of banking active genes and consolidating, the counts of the active genes add up
  -- to what they were before and one for each gene that was added or merged; and where the bank had at
  -- most the configured number of active genes, it still has.
  pub perform_all-recorded :
      (cfg : BankConfig) (bank : WarningBank) (ops : List Operation)
      → All BanksActive ops
      → length (active_genes bank) ≤ cfg.max_active_genes
      → let (n, after) = perform_all cfg bank ops in
        (recorded after ≡ recorded bank + n) × (length (active_genes after) ≤ cfg.max_active_genes)
  perform_all-recorded cfg bank [] h k = ((omega arith), k)
  perform_all-recorded cfg bank (op ∷ ops) h k =
      let (total, size) = perform-Steps cfg bank op h.0 in
      let (rest, last) = perform_all-recorded cfg (perform cfg bank op).1 ops h.1 (size k) in
      ((rest ∙ omega (arith, total)), last)
