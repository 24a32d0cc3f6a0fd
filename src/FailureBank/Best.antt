-- ===== src/FailureBank/Best.antt =====
-- What is injected: `injectRelevant` against a description of the genes and of their order.
use gateloop.Base.{
  ℕ, zero, suc, min, ◌≤◌, String, true, List, [], ◌∷◌, ◌≡◌, refl, ◌≢◌, ◌↔◌, ◌⊎◌, inl, inr, ap, ◌∙◌,
  arith, length, take, All, All-map, ArePairwise, Memᴰ, All-of_mem, All-mem, mem-filter,
  mem-filter_of, Ordering, compare, filter,
}
use gateloop.Base.Sort.{
  sort, IsCollation, IsSorted, mem-sort, mem-sort_of, sort-IsSorted, length-sort, take_least,
}
use gateloop.Base.Comparator.{IsComparator, lexicographic-IsCollation}
use gateloop.Base.Tally.{Tally, filter-Tally}
use gateloop.FailureBank.State.{
  FailureGene, WarningBank, Severity, fatal, recoverable, warning, GeneStatus, active, is_active,
}
use gateloop.FailureBank.Picking.{rank, by_severity, is_relevant, inject_relevant}
use gateloop.FailureBank.Matching.{Matching, signal_matches_iff}

pub data MoreSevere : Severity → Severity → Type 0 where
  fatal_recoverable : MoreSevere fatal recoverable
  fatal_warning : MoreSevere fatal warning
  recoverable_warning : MoreSevere recoverable warning

-- The first gene is more severe, or as severe and seen at least as often.
abbrev pub NotAfter : FailureGene → FailureGene → Type 0
NotAfter p g =
    MoreSevere p.severity g.severity
    ⊎ ((p.severity ≡ g.severity) × (g.consolidated_count ≤ p.consolidated_count))

abbrev pub IsRelevant : (List ℕ → List ℕ) → String → FailureGene → Type 0
IsRelevant to_lower_case context g = (g.status ≡ active) × Matching to_lower_case context g

severity-IsComparator :
    IsComparator (λ (a b : FailureGene). compare (rank a.severity) (rank b.severity))
severity-IsComparator = record { flip = λ a b. ground arith; trans = λ a b c h k. ground arith }

count-IsComparator :
    IsComparator (λ (a b : FailureGene). compare b.consolidated_count a.consolidated_count)
count-IsComparator = record { flip = λ a b. ground arith; trans = λ a b c h k. ground arith }

by_severity-IsCollation : IsCollation by_severity
by_severity-IsCollation =
    lexicographic-IsCollation (λ (a b : FailureGene). compare (rank a.severity) (rank b.severity))
      (λ (a b : FailureGene). compare b.consolidated_count a.consolidated_count)
      severity-IsComparator count-IsComparator

mem-take : {a : FailureGene} (k : ℕ) (xs : List FailureGene) → Memᴰ a (take k xs) → Memᴰ a xs
mem-take zero xs m = elim m [ ]
mem-take (suc k) [] m = elim m [ ]
mem-take (suc k) (x ∷ xs) (Memᴰ.head e) = Memᴰ.head e
mem-take (suc k) (x ∷ xs) (Memᴰ.tail m) = Memᴰ.tail (mem-take k xs m)

length-take-min : {A : Type 0} (k : ℕ) (xs : List A) → length (take k xs) ≡ min k (length xs)
length-take-min zero xs = omega arith
length-take-min (suc k) [] = omega arith
length-take-min (suc k) (x ∷ xs) = omega (arith, length-take-min k xs)

severity_order :
    (a b : Severity)
    → compare (rank a) (rank b) ≢ Ordering.gt
    → MoreSevere a b ⊎ ((a ≡ b) × (compare (rank a) (rank b) ≡ Ordering.eq))
severity_order fatal fatal n = inr (refl, refl)
severity_order fatal recoverable n = inl fatal_recoverable
severity_order fatal warning n = inl fatal_warning
severity_order recoverable fatal n = absurd (n refl)
severity_order recoverable recoverable n = inr (refl, refl)
severity_order recoverable warning n = inl recoverable_warning
severity_order warning fatal n = absurd (n refl)
severity_order warning recoverable n = absurd (n refl)
severity_order warning warning n = inr (refl, refl)

by_severity-NotAfter : (p g : FailureGene) → by_severity p g ≢ Ordering.gt → NotAfter p g
by_severity-NotAfter p g n = elim (severity_order p.severity g.severity (λ e. n (ground arith))) [
  | inl m ↦ inl m
  | inr (same, e) ↦ inr (same, ground arith)
]

is_active_iff : (status : GeneStatus) → (is_active status ≡ true) ↔ (status ≡ active)
is_active_iff status = ((λ h. ground arith), (λ h. ground arith))

Sorted-NotAfter :
    (k : ℕ) (xs : List FailureGene) → IsSorted by_severity xs → ArePairwise NotAfter (take k xs)
Sorted-NotAfter zero xs h = tt
Sorted-NotAfter (suc k) [] h = tt
Sorted-NotAfter (suc k) (x ∷ xs) (h, t) = (
  All-of_mem (NotAfter x) (take k xs)
      (λ y m. by_severity-NotAfter x y (All-mem _ xs h (mem-take k xs m))),
  Sorted-NotAfter k xs t,
)

module _ (to_lower_case : List ℕ → List ℕ) where
  is_relevant_iff :
      (context : String) (g : FailureGene)
      → (is_relevant to_lower_case context g ≡ true) ↔ IsRelevant to_lower_case context g
  is_relevant_iff context g =
      let live = is_active_iff g.status in
      let found = signal_matches_iff to_lower_case context g in
      (
        (λ h. (live.0 (ground arith), found.0 (ground arith))),
        (λ (a, m). let b = live.1 a in let c = found.1 m in ground arith),
      )

  -- The picked genes are active genes of the bank whose signal matches the context, each more severe
  -- than the later ones or as severe and seen at least as often; there are as many as the limit and the
  -- number of such genes allow; and such a gene that is not picked is before none of the picked ones in
  -- this order.
  pub inject_best :
      (bank : WarningBank) (context : String) (k : ℕ)
      → let picked = inject_relevant to_lower_case bank context k in
        All (λ g. Memᴰ g bank.bank × IsRelevant to_lower_case context g) picked
        × ArePairwise NotAfter picked
        × ((n : ℕ) × Tally (IsRelevant to_lower_case context) bank.bank n
            × (length picked ≡ min k n))
        × ((g : FailureGene)
            → Memᴰ g bank.bank
            → IsRelevant to_lower_case context g
            → Memᴰ g picked ⊎ All (λ p. NotAfter p g) picked)
  unfolding inject_relevant
  inject_best bank context k =
      let test = is_relevant to_lower_case context in
      let relevant = filter test bank.bank in
      let sorted = sort by_severity relevant in
      let in_order = sort-IsSorted by_severity by_severity-IsCollation relevant in
      (
        All-of_mem _ (take k sorted) (λ g m.
            let (inside, passes) =
              mem-filter test bank.bank (mem-sort by_severity relevant (mem-take k sorted m)) in
            (inside, (is_relevant_iff context g).0 passes)),
        Sorted-NotAfter k sorted in_order,
        (
          length relevant,
          filter-Tally (IsRelevant to_lower_case context) test (is_relevant_iff context) bank.bank,
          length-take-min k sorted ∙ ap (min k) (length-sort by_severity relevant),
        ),
        (λ g m h.
            elim (take_least by_severity k sorted in_order (
              mem-sort_of by_severity relevant
                (mem-filter_of test bank.bank m ((is_relevant_iff context g).1 h)))) [
                  | inl picked ↦ inl picked
                  | inr after ↦
                      inr (All-map _ _ (take k sorted) (λ p. by_severity-NotAfter p g) after)
                ]),
      )
