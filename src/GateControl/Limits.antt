-- ===== src/GateControl/Limits.antt =====
-- The cumulative budget and the token cap (index.ts, lines 118 to 186 and 381 to 393). Amounts are
-- natural numbers of a smallest unit; a ceiling of Infinity is `none`.
use gateloop.Base.{
  ℕ, ◌+◌, ◌≤◌, ◌<◌, Bool, true, false, Option, none, some, List, [], ◌∷◌, leb, ltb, ◌≡◌, ◌↔◌, ◌⊎◌,
  inl, inr, length, arith, if◌then◌else◌,
}
use gateloop.GateControl.State.{
  GateDecision, decision, ceiling_reached, estimate_exceeds, within_budget,
}

pub record BudgetLedger : Type 0 where
  pub spent_usd : ℕ
  pub ceiling_usd : Option ℕ

abbrev pub start_within : ℕ → ℕ → ℕ → GateDecision
start_within spent ceiling estimate =
    if leb ceiling spent
    then decision false ceiling_reached
    else if ltb ceiling (spent + estimate)
    then decision false estimate_exceeds
    else decision true within_budget

unfoldable pub can_start : BudgetLedger → ℕ → GateDecision
can_start ledger estimate = elim ledger.ceiling_usd [
  | none ↦ decision true within_budget
  | some ceiling ↦ start_within ledger.spent_usd ceiling estimate
]

abbrev pub record_spend : BudgetLedger → ℕ → BudgetLedger
record_spend ledger usd = record ledger { spent_usd = ledger.spent_usd + usd }

-- `seedBudgetLedgerFromProjectCost`.
abbrev pub seed_budget_ledger : ℕ → Option ℕ → BudgetLedger
seed_budget_ledger cumulative budget = record { spent_usd = cumulative; ceiling_usd = budget }

-- A run, by its estimate and what it spends: it is refused, or spends.
abbrev pub attempt : BudgetLedger → ℕ × ℕ → BudgetLedger
attempt ledger (estimate, spent) =
    if (can_start ledger estimate).allowed then record_spend ledger spent else ledger

abbrev pub attempts : BudgetLedger → List (ℕ × ℕ) → BudgetLedger
attempts ledger [] = ledger
attempts ledger (run ∷ runs) = attempts (attempt ledger run) runs

-- No run spends more than it estimated.
abbrev pub Honest : List (ℕ × ℕ) → Type 0
Honest [] = Unit
Honest ((estimate, spent) ∷ runs) = (spent ≤ estimate) × Honest runs

attempt_within :
    (ledger : BudgetLedger) (ceiling estimate spent : ℕ)
    → ledger.ceiling_usd ≡ some ceiling
    → spent ≤ estimate
    → ledger.spent_usd ≤ ceiling
    → ((attempt ledger (estimate, spent)).ceiling_usd ≡ some ceiling)
      × ((attempt ledger (estimate, spent)).spent_usd ≤ ceiling)
unfolding can_start
attempt_within ledger ceiling estimate spent e h k = (ground arith, ground arith)

-- Runs that are started only when the ledger allows it, and that spend at most what they estimated,
-- never take a capped ledger beyond its ceiling.
pub spent_below_ceiling :
    (ledger : BudgetLedger) (ceiling : ℕ) (runs : List (ℕ × ℕ))
    → ledger.ceiling_usd ≡ some ceiling
    → Honest runs
    → ledger.spent_usd ≤ ceiling
    → (attempts ledger runs).spent_usd ≤ ceiling
spent_below_ceiling ledger ceiling [] e h k = k
spent_below_ceiling ledger ceiling ((estimate, spent) ∷ runs) e (o, h) k =
    let (c, below) = attempt_within ledger ceiling estimate spent e o k in
    spent_below_ceiling (attempt ledger (estimate, spent)) ceiling runs c h below

pub record TokenCapGuard : Type 0 where
  pub total : ℕ
  pub is_killed : Bool
  pub cap : ℕ

abbrev pub new_guard : ℕ → TokenCapGuard
new_guard cap = record { total = 0; is_killed = false; cap = cap }

-- The guard after it, and whether it is still under the cap.
unfoldable pub record_tokens : TokenCapGuard → ℕ → TokenCapGuard × Bool
record_tokens guard tokens =
    let total = guard.total + tokens in
    if leb guard.cap total
    then (record guard { total = total; is_killed = true }, false)
    else (record guard { total = total }, true)

abbrev pub record_all : TokenCapGuard → List ℕ → TokenCapGuard
record_all guard [] = guard
record_all guard (tokens ∷ usage) = record_all (record_tokens guard tokens).0 usage

abbrev pub sum : List ℕ → ℕ
sum [] = 0
sum (n ∷ ns) = n + sum ns

recorded :
    (guard : TokenCapGuard) (tokens : ℕ)
    → let after = (record_tokens guard tokens).0 in
      (after.total ≡ guard.total + tokens)
      × (after.cap ≡ guard.cap)
      × ((after.is_killed ≡ true) ↔ ((guard.is_killed ≡ true) ⊎ (guard.cap ≤ guard.total + tokens)))
unfolding record_tokens
recorded guard tokens = ((ground arith), (ground arith), ((λ h. ground arith), (λ h. ground arith)))

killed_from :
    (guard : TokenCapGuard) (usage : List ℕ)
    → ((record_all guard usage).is_killed ≡ true)
      ↔ ((guard.is_killed ≡ true) ⊎ ((0 < length usage) × (guard.cap ≤ guard.total + sum usage)))
killed_from guard [] =
    ((λ h. inl h), (λ h. elim h [ inl k ↦ k | inr (n, c) ↦ absurd (omega arith) ]))
killed_from guard (tokens ∷ usage) =
    step (record_tokens guard tokens).0 (recorded guard tokens)
      (killed_from (record_tokens guard tokens).0 usage)
  where
    step :
        (after : TokenCapGuard)
        → (after.total ≡ guard.total + tokens)
          × (after.cap ≡ guard.cap)
          × ((after.is_killed ≡ true)
              ↔ ((guard.is_killed ≡ true) ⊎ (guard.cap ≤ guard.total + tokens)))
        → ((record_all after usage).is_killed ≡ true) ↔ (
            (after.is_killed ≡ true) ⊎ ((0 < length usage) × (after.cap ≤ after.total + sum usage)))
        → ((record_all after usage).is_killed ≡ true) ↔ (
            (guard.is_killed ≡ true)
            ⊎ ((0 < length (tokens ∷ usage)) × (guard.cap ≤ guard.total + sum (tokens ∷ usage))))
    step after (t, c, k) ih = (
      (λ h. elim (ih.0 h) [
        | inl a ↦ elim (k.0 a) [ inl b ↦ inl b | inr b ↦ inr ((omega arith), (omega arith)) ]
        | inr (n, b) ↦ inr ((omega arith), (omega arith))
      ]),
      (λ h. elim h [ inl a ↦ ih.1 (inl (k.1 (inl a))) | inr (n, b) ↦ by_usage usage ih b ]),
    )
      where
        by_usage :
            (us : List ℕ)
            → ((record_all after us).is_killed ≡ true)
              ↔ ((after.is_killed ≡ true) ⊎ ((0 < length us) × (after.cap ≤ after.total + sum us)))
            → guard.cap ≤ guard.total + (tokens + sum us)
            → (record_all after us).is_killed ≡ true
        by_usage [] jh b = jh.1 (inl (k.1 (inr (omega arith))))
        by_usage (u ∷ us) jh b = jh.1 (inr ((omega arith), (omega arith)))

-- The guard of a run kills it exactly when usage was recorded and the recorded tokens add up to the
-- cap or more.
pub killed_iff :
    (cap : ℕ) (usage : List ℕ)
    → ((record_all (new_guard cap) usage).is_killed ≡ true)
      ↔ ((0 < length usage) × (cap ≤ sum usage))
killed_iff cap usage =
    let h = killed_from (new_guard cap) usage in
    (
      (λ k. elim (h.0 k) [ inl b ↦ absurd (not_killed b) | inr (n, c) ↦ (n, omega arith) ]),
      (λ (n, c). h.1 (inr (n, omega arith))),
    )
  where
    not_killed : false ≡ true → ⊥
    not_killed b = cc
