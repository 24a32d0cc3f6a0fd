-- ===== src/FailureBank/Merging.antt =====
-- The two loops of `consolidate`: what they keep, and what they add up to.
use gateloop.Base.{
  ℕ, suc, ◌+◌, ◌<◌, true, false, List, [], ◌∷◌, ◌≡◌, refl, sym, ap, ◌∙◌, inl, inr, arith,
  Bool-cases, length, if◌then◌else◌, sum_of,
}
use gateloop.FailureBank.State.{FailureGene, tokens_of}
use gateloop.FailureBank.Bank.{
  Pass, has_index, shares, absorbed, absorb_one, absorb, inner_loop, merge_from,
}

-- The sum over the genes, from index `i` on, that are not used.
abbrev pub unused_sum : (FailureGene → ℕ) → ℕ → List FailureGene → List ℕ → ℕ
unused_sum f i [] used = 0
unused_sum f i (g ∷ gs) used = (if has_index used i then 0 else f g) + unused_sum f (suc i) gs used

pub unused_sum-cons :
    (f : FailureGene → ℕ) (i k : ℕ) (gs : List FailureGene) (used : List ℕ)
    → k < i
    → unused_sum f i gs (k ∷ used) ≡ unused_sum f i gs used
unused_sum-cons f i k [] used h = refl
unused_sum-cons f i k (g ∷ gs) used h =
    ground (arith, unused_sum-cons f (suc i) k gs used (omega arith))

unused_sum-nil :
    (f : FailureGene → ℕ) (i : ℕ) (gs : List FailureGene) → unused_sum f i gs [] ≡ sum_of f gs
unused_sum-nil f i [] = refl
unused_sum-nil f i (g ∷ gs) = ap (λ n. f g + n) (unused_sum-nil f (suc i) gs)

add_between : (a b c d : ℕ) {x y : ℕ} → a + b ≡ c + d → x ≡ y → a + (x + b) ≡ c + (y + d)
add_between a b c d h k = omega arith

zero_plus : (n : ℕ) → n ≡ 0 + n
zero_plus n = omega arith

add_two : {a b c d : ℕ} → a ≡ b → c ≡ d → a + c ≡ b + d
add_two h k = omega arith

gather : (a b c d n : ℕ) {x y : ℕ} → a + b ≡ (c + n) + d → x ≡ 0 → y ≡ n → a + (x + b) ≡ c + (y + d)
gather a b c d n h k l = omega arith

pub first_here : (j : ℕ) (used : List ℕ) → has_index (j ∷ used) j ≡ true
first_here j used = ground arith

module _ (tokens : List (List ℕ)) where
  absorb_one_before :
      (j k : ℕ) (g : FailureGene) (s : Pass)
      → k < j
      → has_index (absorb_one tokens j g s).used k ≡ has_index s.used k
  absorb_one_before j k g s h = ground arith

  -- The loop uses no index before its own.
  pub absorb_before :
      (j k : ℕ) (gs : List FailureGene) (s : Pass)
      → k < j
      → has_index (absorb tokens j gs s).used k ≡ has_index s.used k
  absorb_before j k [] s h = refl
  absorb_before j k (g ∷ gs) s h =
      absorb_before (suc j) k gs (absorb_one tokens j g s) (omega arith)
      ∙ absorb_one_before j k g s h

  pub absorb_grows :
      (j k : ℕ) (gs : List FailureGene) (s : Pass)
      → has_index s.used k ≡ true
      → has_index (absorb tokens j gs s).used k ≡ true
  absorb_grows j k [] s h = h
  absorb_grows j k (g ∷ gs) s h =
      let one : has_index (absorb_one tokens j g s).used k ≡ true = ground arith in
      absorb_grows (suc j) k gs (absorb_one tokens j g s) one

  -- A measure of the state that grows by `f g` where `g` is taken in grows by all that is used.
  pub absorb_sum :
      (f : FailureGene → ℕ) (measure : Pass → ℕ)
      → ((s : Pass) (j : ℕ) (g : FailureGene)
          → measure (record {
            base = absorbed g s.base;
            used = j ∷ s.used;
            merged_count = suc s.merged_count;
          })
            ≡ measure s + f g)
      → (j : ℕ) (gs : List FailureGene) (s : Pass)
      → measure (absorb tokens j gs s) + unused_sum f j gs (absorb tokens j gs s).used
        ≡ measure s + unused_sum f j gs s.used
  absorb_sum f measure step j [] s = refl
  absorb_sum f measure step j (g ∷ gs) s =
      let one = absorb_one tokens j g s in
      let out = absorb tokens (suc j) gs one in
      let later = absorb_sum f measure step (suc j) gs one in
      let here = absorb_before (suc j) j gs one (omega arith) in
      elim (Bool-cases (has_index s.used j)) [
        | inl e ↦ kept out one (rw e refl) later here
        | inr e ↦ elim (Bool-cases (shares tokens (tokens_of g.matching_signal))) [
          | inl d ↦ taken out one (rw (e, d) refl) e later here
          | inr d ↦ kept out one (rw (e, d) refl) later here
        ]
      ]
    where
      left : Pass → ℕ
      left t = unused_sum f (suc j) gs t.used

      kept :
          (out one : Pass)
          → one ≡ s
          → measure out + left out ≡ measure one + left one
          → has_index out.used j ≡ has_index one.used j
          → measure out + unused_sum f j (g ∷ gs) out.used
            ≡ measure s + unused_sum f j (g ∷ gs) s.used
      kept out one q later here =
          add_between (measure out) (left out) (measure s) (left s)
            (later ∙ ap (λ (t : Pass). measure t + left t) q)
            (ap (λ b. if b then 0 else f g) (here ∙ ap (λ (t : Pass). has_index t.used j) q))

      taken :
          (out one : Pass)
          → one ≡ record {
            base = absorbed g s.base;
            used = j ∷ s.used;
            merged_count = suc s.merged_count;
          }
          → has_index s.used j ≡ false
          → measure out + left out ≡ measure one + left one
          → has_index out.used j ≡ has_index one.used j
          → measure out + unused_sum f j (g ∷ gs) out.used
            ≡ measure s + unused_sum f j (g ∷ gs) s.used
      taken out one q e later here =
          let fresh = unused_sum-cons f (suc j) j gs s.used (omega arith) in
          let total : measure out + left out ≡ (measure s + f g) + unused_sum f (suc j) gs s.used =
            later ∙ ap (λ (t : Pass). measure t + left t) q ∙ add_two (step s j g) fresh in
          let first : (if has_index out.used j then 0 else f g) ≡ 0 =
            ap (λ b. if b then 0 else f g)
              (here ∙ (ap (λ (t : Pass). has_index t.used j) q ∙ first_here j s.used)) in
          let second : (if has_index s.used j then 0 else f g) ≡ f g =
            ap (λ b. if b then 0 else f g) e in
          gather (measure out) (left out) (measure s) (unused_sum f (suc j) gs s.used) (f g) total
            first second

abbrev pub counts : FailureGene → ℕ
counts g = g.consolidated_count

inner_counts :
    (i : ℕ) (g : FailureGene) (gs : List FailureGene) (used : List ℕ)
    → (inner_loop i g gs used).base.consolidated_count
        + unused_sum counts (suc i) gs (inner_loop i g gs used).used
      ≡ g.consolidated_count + unused_sum counts (suc i) gs used
inner_counts i g gs used =
    absorb_sum (tokens_of g.matching_signal) counts (λ s. s.base.consolidated_count) (λ s j h. refl)
      (suc i) gs (record { base = g; used = i ∷ used; merged_count = 0 })
    ∙ ap (λ n. g.consolidated_count + n) (unused_sum-cons counts (suc i) i gs used (omega arith))

-- The counts of the genes that stay add up to those of all genes that were not used.
merge_from-counts :
    (i : ℕ) (gs : List FailureGene) (used : List ℕ)
    → sum_of counts (merge_from i gs used).0 ≡ unused_sum counts i gs used
merge_from-counts i [] used = refl
merge_from-counts i (g ∷ gs) used = elim (Bool-cases (has_index used i)) [
  | inl e ↦ rw e (merge_from-counts (suc i) gs used ∙ zero_plus _)
  | inr e ↦
      let pass = inner_loop i g gs used in
      rw e (
        ap (λ n. pass.base.consolidated_count + n) (merge_from-counts (suc i) gs pass.used)
        ∙ inner_counts i g gs used)
]

pub merge_counts : (gs : List FailureGene) → sum_of counts (merge_from 0 gs []).0 ≡ sum_of counts gs
merge_counts gs = merge_from-counts 0 gs [] ∙ unused_sum-nil counts 0 gs

abbrev ones : FailureGene → ℕ
ones g = 1

inner_merged :
    (i : ℕ) (g : FailureGene) (gs : List FailureGene) (used : List ℕ)
    → (inner_loop i g gs used).merged_count
        + unused_sum ones (suc i) gs (inner_loop i g gs used).used
      ≡ unused_sum ones (suc i) gs used
inner_merged i g gs used =
    absorb_sum (tokens_of g.matching_signal) ones (λ s. s.merged_count) (λ s j h. omega arith)
      (suc i) gs (record { base = g; used = i ∷ used; merged_count = 0 })
    ∙ sym (zero_plus _)
    ∙ unused_sum-cons ones (suc i) i gs used (omega arith)

merge_from-merged :
    (i : ℕ) (gs : List FailureGene) (used : List ℕ)
    → length (merge_from i gs used).0 + (merge_from i gs used).1 ≡ unused_sum ones i gs used
merge_from-merged i [] used = refl
merge_from-merged i (g ∷ gs) used = elim (Bool-cases (has_index used i)) [
  | inl e ↦ rw e (merge_from-merged (suc i) gs used ∙ zero_plus _)
  | inr e ↦
      let pass = inner_loop i g gs used in
      let rest = merge_from-merged (suc i) gs pass.used in
      let inner = inner_merged i g gs used in rw e (omega (arith, rest, inner))
]

length-ones : (gs : List FailureGene) → sum_of ones gs ≡ length gs
length-ones [] = refl
length-ones (g ∷ gs) = omega (arith, length-ones gs)

-- What stays and what was merged are as many as there were.
pub merge_merged :
    (gs : List FailureGene) → length (merge_from 0 gs []).0 + (merge_from 0 gs []).1 ≡ length gs
merge_merged gs = merge_from-merged 0 gs [] ∙ unused_sum-nil ones 0 gs ∙ length-ones gs
