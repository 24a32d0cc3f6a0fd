-- ===== src/FailureBank/Disjoint.antt =====
-- The tokens of the genes that `consolidate` keeps (index.ts, lines 138 to 173).
use gateloop.Base.{
  ArePairwise, ℕ, suc, String, Bool, true, false, List, [], ◌∷◌, ◌≡◌, refl, sym, ◌∙◌, subst, inl,
  inr, arith, Bool-cases, All, All-map, All-of_mem, mem-filter, Ordering, filter,
}
use gateloop.Base.Sort.{All-sort}
use gateloop.FailureBank.State.{FailureGene, WarningBank, is_active, tokens_of}
use gateloop.FailureBank.Bank.{
  Pass, has_index, shares, absorbed, absorb_one, absorb, inner_loop, merge_from, active_gene,
  sorted_active, consolidate,
}
use gateloop.FailureBank.Merging.{absorb_before, absorb_grows, first_here}

-- No token of the one is a token of the other.
abbrev pub Apart : FailureGene → FailureGene → Type 0
Apart g h = shares (tokens_of g.matching_signal) (tokens_of h.matching_signal) ≡ false

abbrev AllUnused : (FailureGene → Type 0) → ℕ → List FailureGene → List ℕ → Type 0
AllUnused P i [] used = Unit
AllUnused P i (g ∷ gs) used = (has_index used i ≡ false → P g) × AllUnused P (suc i) gs used

AllUnused-map :
    (P : FailureGene → Type 0) (i : ℕ) (gs : List FailureGene) (used more : List ℕ)
    → ((k : ℕ) → has_index used k ≡ true → has_index more k ≡ true)
    → AllUnused P i gs used
    → AllUnused P i gs more
AllUnused-map P i [] used more h a = tt
AllUnused-map P i (g ∷ gs) used more h a =
    ((λ e. a.0 (by_used (has_index used i) refl e)), AllUnused-map P (suc i) gs used more h a.1)
  where
    by_used :
        (b : Bool) → has_index used i ≡ b → has_index more i ≡ false → has_index used i ≡ false
    by_used false q e = q
    by_used true q e = let m = h i q in cc

AllUnused-of_All :
    (P : FailureGene → Type 0) (i : ℕ) (gs : List FailureGene) (used : List ℕ)
    → All P gs
    → AllUnused P i gs used
AllUnused-of_All P i [] used h = tt
AllUnused-of_All P i (g ∷ gs) used h = ((λ _. h.0), AllUnused-of_All P (suc i) gs used h.1)

module _ (tokens : List (List ℕ)) where
  -- What the inner loop leaves unused shares no token.
  absorb_leaves :
      (j : ℕ) (gs : List FailureGene) (s : Pass)
      → AllUnused
          (λ g. shares tokens (tokens_of g.matching_signal) ≡ false)
          j
          gs
          (absorb tokens j gs s).used
  absorb_leaves j [] s = tt
  absorb_leaves j (g ∷ gs) s =
      let one = absorb_one tokens j g s in
      (
        (λ e. by_one (sym (absorb_before tokens (suc j) j gs one (omega arith)) ∙ e)),
        absorb_leaves (suc j) gs one,
      )
    where
      by_one :
          has_index (absorb_one tokens j g s).used j ≡ false
          → shares tokens (tokens_of g.matching_signal) ≡ false
      by_one e = elim (Bool-cases (shares tokens (tokens_of g.matching_signal))) [
        | inr d ↦ d
        | inl d ↦ elim (Bool-cases (has_index s.used j)) [
          | inl u ↦ let bad : has_index s.used j ≡ false = rw (sym (kept u)) e in cc
          | inr u ↦
              let used : has_index (absorb_one tokens j g s).used j ≡ true =
                rw (u, d) (first_here j s.used) in
              cc
        ]
      ]
        where
          kept : has_index s.used j ≡ true → absorb_one tokens j g s ≡ s
          kept u = rw u refl

  -- The base keeps its signal and its status.
  absorb-signal :
      (j : ℕ) (gs : List FailureGene) (s : Pass)
      → ((absorb tokens j gs s).base.matching_signal ≡ s.base.matching_signal)
        × ((absorb tokens j gs s).base.status ≡ s.base.status)
  absorb-signal j [] s = (refl, refl)
  absorb-signal j (g ∷ gs) s =
      let (a, b) = absorb-signal (suc j) gs (absorb_one tokens j g s) in
      let (c, d) = one_keeps in (a ∙ c, b ∙ d)
    where
      one_keeps :
          ((absorb_one tokens j g s).base.matching_signal ≡ s.base.matching_signal)
          × ((absorb_one tokens j g s).base.status ≡ s.base.status)
      one_keeps = ((ground arith), (ground arith))

module _ (P : FailureGene → Type 0)
    (keeps : (g h : FailureGene)
      → g.matching_signal ≡ h.matching_signal
      → g.status ≡ h.status
      → P h
      → P g) where
  -- What holds of every unused gene by its signal and status holds of every gene that stays.
  merge_from-All :
      (i : ℕ) (gs : List FailureGene) (used : List ℕ)
      → AllUnused P i gs used
      → All P (merge_from i gs used).0
  merge_from-All i [] used h = tt
  merge_from-All i (g ∷ gs) used h = elim (Bool-cases (has_index used i)) [
    | inl e ↦ rw e (merge_from-All (suc i) gs used h.1)
    | inr e ↦ rw e (here e, merge_from-All (suc i) gs pass.used later)
  ]
    where
      start : Pass
      start = record { base = g; used = i ∷ used; merged_count = 0 }

      pass : Pass
      pass = inner_loop i g gs used

      here : has_index used i ≡ false → P pass.base
      here e =
          let (a, b) = absorb-signal (tokens_of g.matching_signal) (suc i) gs start in
          keeps pass.base g a b (h.0 e)

      later : AllUnused P (suc i) gs pass.used
      later =
          AllUnused-map P (suc i) gs used pass.used
            (λ k u. absorb_grows (tokens_of g.matching_signal) (suc i) k gs start (ground arith))
            h.1

merge_from-Apart :
    (i : ℕ) (gs : List FailureGene) (used : List ℕ) → ArePairwise Apart (merge_from i gs used).0
merge_from-Apart i [] used = tt
merge_from-Apart i (g ∷ gs) used = elim (Bool-cases (has_index used i)) [
  | inl e ↦ rw e (merge_from-Apart (suc i) gs used)
  | inr e ↦ rw e (rest, merge_from-Apart (suc i) gs pass.used)
]
  where
    start : Pass
    start = record { base = g; used = i ∷ used; merged_count = 0 }

    pass : Pass
    pass = inner_loop i g gs used

    tokens : List (List ℕ)
    tokens = tokens_of g.matching_signal

    base_signal : pass.base.matching_signal ≡ g.matching_signal
    base_signal = (absorb-signal tokens (suc i) gs start).0

    rest : All (Apart pass.base) (merge_from (suc i) gs pass.used).0
    rest =
        All-map (λ h. shares tokens (tokens_of h.matching_signal) ≡ false) (Apart pass.base)
          (merge_from (suc i) gs pass.used).0
          (λ h q.
            subst (λ m. shares (tokens_of m) (tokens_of h.matching_signal) ≡ false)
              (sym base_signal) q)
          (merge_from-All (λ h. shares tokens (tokens_of h.matching_signal) ≡ false)
            (λ a b q _ k. subst (λ m. shares tokens (tokens_of m) ≡ false) (sym q) k) (suc i) gs
            pass.used (absorb_leaves tokens (suc i) gs start))

abbrev pub IsActive : FailureGene → Type 0
IsActive g = is_active g.status ≡ true

module _ (locale_compare : String → String → Ordering) where
  -- After `consolidate` every gene of the bank is active, and no gene shares a token of its signal with
  -- a later one.
  pub consolidate-Apart :
      (bank : WarningBank)
      → let after = (consolidate locale_compare bank).1 in
        All IsActive after.bank × ArePairwise Apart after.bank
  unfolding consolidate
  consolidate-Apart bank =
      let gs = sorted_active locale_compare bank in
      (
        merge_from-All IsActive (λ a b _ q k. subst (λ s. is_active s ≡ true) (sym q) k) 0 gs []
            (AllUnused-of_All IsActive 0 gs [] (
              All-sort (gateloop.FailureBank.Bank.by_id locale_compare) IsActive
                (filter active_gene bank.bank)
                (All-of_mem IsActive (filter active_gene bank.bank)
                  (λ a m. (mem-filter active_gene bank.bank m).1)))),
        merge_from-Apart 0 gs [],
      )
