-- ===== src/Scheduling/Wip.antt =====
-- The cap of a plan (spawn-plan.ts, lines 117 to 130).
use gateloop.Base.{
  ℕ, zero, suc, ◌+◌, ◌≤◌, max, String, false, List, [], ◌∷◌, ◌++◌, ◌≡◌, refl, sym, ap, ◌∙◌, inl,
  inr, arith, Bool-cases, length, length-append, leb, take, drop, Ordering, leb→le,
}
use gateloop.Base.Sort.{sort, length-sort}
use gateloop.Scheduling.SpawnPlan.{SpawnPlan, apply_wip_cap}

take-drop : (k : ℕ) (xs : List String) → take k xs ++ drop k xs ≡ xs
take-drop zero xs = refl
take-drop (suc k) [] = refl
take-drop (suc k) (x ∷ xs) = ap (λ ys. x ∷ ys) (take-drop k xs)

take_short : (k : ℕ) (xs : List String) → length (take k xs) ≤ k
take_short zero xs = omega arith
take_short (suc k) [] = omega arith
take_short (suc k) (x ∷ xs) = omega (arith, take_short k xs)

module _ (locale_compare : String → String → Ordering) where
  -- A capped plan starts at most as many stories as the cap allows, which is at least one, and holds as
  -- many stories as the plan before; where the batch is over the cap, the new batch followed by the new
  -- queue is the sorted batch followed by the queue.
  pub wip_cap-bounds :
      (plan : SpawnPlan) (max_wip : ℕ)
      → let capped = apply_wip_cap locale_compare plan max_wip in
        (length capped.parallel_batch ≤ max 1 max_wip)
        × (length capped.parallel_batch + length capped.sequential_queue
            ≡ length plan.parallel_batch + length plan.sequential_queue)
        × (leb (length plan.parallel_batch) (max 1 max_wip) ≡ false
            → capped.parallel_batch ++ capped.sequential_queue
              ≡ sort locale_compare plan.parallel_batch ++ plan.sequential_queue)
  unfolding apply_wip_cap
  wip_cap-bounds plan max_wip = elim (Bool-cases (leb (length plan.parallel_batch) cap)) [
    | inl e ↦ rw e (leb→le _ _ e, refl, (λ h. cc))
    | inr e ↦ let short = take_short cap sorted in rw e (short, total, (λ _. whole))
  ]
    where
      cap : ℕ
      cap = max 1 max_wip

      sorted : List String
      sorted = sort locale_compare plan.parallel_batch

      append_assoc : (xs ys zs : List String) → xs ++ (ys ++ zs) ≡ (xs ++ ys) ++ zs
      append_assoc [] ys zs = refl
      append_assoc (x ∷ xs) ys zs = ap (λ ws. x ∷ ws) (append_assoc xs ys zs)

      whole :
          take cap sorted ++ (drop cap sorted ++ plan.sequential_queue)
          ≡ sorted ++ plan.sequential_queue
      whole =
          append_assoc (take cap sorted) (drop cap sorted) plan.sequential_queue
          ∙ ap (λ xs. xs ++ plan.sequential_queue) (take-drop cap sorted)

      total :
          length (take cap sorted) + length (drop cap sorted ++ plan.sequential_queue)
          ≡ length plan.parallel_batch + length plan.sequential_queue
      total =
          sym (length-append (take cap sorted) (drop cap sorted ++ plan.sequential_queue))
          ∙ ap length whole
          ∙ length-append sorted plan.sequential_queue
          ∙ ap (λ n. n + length plan.sequential_queue)
              (length-sort locale_compare plan.parallel_batch)
