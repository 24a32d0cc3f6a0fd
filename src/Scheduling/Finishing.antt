-- ===== src/Scheduling/Finishing.antt =====
-- The turns that the searches of `computeSpawnPlan` take (spawn-plan.ts, lines 60 to 75).
use gateloop.Base.{
  ℕ, zero, suc, ◌+◌, ◌≤◌, ◌<◌, String, Bool, true, false, some, List, [], ◌∷◌, ◌++◌, ◌≡◌, refl,
  subst, inl, inr, arith, map, Bool-cases, if◌then◌else◌, length, length-append, Memᴰ, All,
  All-append, str_eq, eq_iff,
}
use gateloop.Base.Ids.{has}
use gateloop.Scheduling.SpawnPlan.{
  SpawnCandidate, SpawnPlan, partner, partners, neighbors, visit, visit_all, search, add_component,
  plan_from, pairs_with, pairs_of, id_of, write_sets_overlap,
}

-- The ids of the list that are not visited.
abbrev unvisited : List String → List String → ℕ
unvisited [] visited = 0
unvisited (u ∷ us) visited = (if has visited u then 0 else 1) + unvisited us visited

unvisited-length : (us visited : List String) → unvisited us visited ≤ length us
unvisited-length [] visited = omega arith
unvisited-length (u ∷ us) visited = ground (arith, unvisited-length us visited)

unvisited-cons :
    (us visited : List String) (n : String) → unvisited us (n ∷ visited) ≤ unvisited us visited
unvisited-cons [] visited n = omega arith
unvisited-cons (u ∷ us) visited n = ground (arith, unvisited-cons us visited n)

-- Visiting one of them leaves fewer.
unvisited-visit :
    (us visited : List String) (n : String)
    → Memᴰ n us
    → has visited n ≡ false
    → unvisited us (n ∷ visited) < unvisited us visited
unvisited-visit [] visited n m h = elim m [ ]
unvisited-visit (u ∷ us) visited n (Memᴰ.head e) h =
    let here : str_eq n u ≡ true = (eq_iff n u).1 e in
    let away : has visited u ≡ false = subst (λ x. has visited x ≡ false) e h in
    let rest = unvisited-cons us visited n in rw (here, away) (omega (arith, rest))
unvisited-visit (u ∷ us) visited n (Memᴰ.tail m) h =
    ground (arith, unvisited-visit us visited n m h)

module _ (ids : List String) where
  visit_weight :
      (n : String) (queue visited : List String)
      → Memᴰ n ids
      → let s = visit n (queue, visited) in
        length s.0 + unvisited ids s.1 ≤ length queue + unvisited ids visited
  visit_weight n queue visited m = elim (Bool-cases (has visited n)) [
    | inl e ↦ rw e (omega arith)
    | inr e ↦
        let more = length-append queue (n ∷ []) in
        let less = unvisited-visit ids visited n m e in rw e (omega (arith, more, less))
  ]

  visit_all_weight :
      (ns : List String) (s : List String × List String)
      → All (λ n. Memᴰ n ids) ns
      → length (visit_all ns s).0 + unvisited ids (visit_all ns s).1
        ≤ length s.0 + unvisited ids s.1
  visit_all_weight [] s h = omega arith
  visit_all_weight (n ∷ ns) s h =
      omega (arith, visit_all_weight ns (visit n s) h.1, visit_weight n s.0 s.1 h.0)

  module _ (pairs : List (String × String))
      (known : All (λ (p : String × String). Memᴰ p.0 ids × Memᴰ p.1 ids) pairs) where
    partners_known :
        (ps : List (String × String)) (x : String)
        → All (λ (p : String × String). Memᴰ p.0 ids × Memᴰ p.1 ids) ps
        → All (λ n. Memᴰ n ids) (partners ps x)
    partners_known [] x h = tt
    partners_known ((a, b) ∷ ps) x h =
        All-append (λ n. Memᴰ n ids) (partner (a, b) x) (partners ps x)
          (All-append (λ n. Memᴰ n ids) (if str_eq a x then b ∷ [] else [])
            (if str_eq b x then a ∷ [] else []) (by_end (str_eq a x) b h.0.1)
            (by_end (str_eq b x) a h.0.0))
          (partners_known ps x h.1)
      where
        by_end :
            (c : Bool) (y : String) → Memᴰ y ids → All (λ n. Memᴰ n ids) (if c then y ∷ [] else [])
        by_end true y m = (m, tt)
        by_end false y m = tt

    search_ends :
        (fuel : ℕ) (queue visited component : List String)
        → length queue + unvisited ids visited ≤ fuel
        → (r : List String × List String) × (search pairs fuel queue visited component ≡ some r)
    search_ends fuel [] visited component h = ((visited, component), refl)
    search_ends zero (node ∷ queue) visited component h = absurd (omega arith)
    search_ends (suc fuel) (node ∷ queue) visited component h =
        let s = visit_all (neighbors pairs node) (queue, visited) in
        let less =
          visit_all_weight (neighbors pairs node) (queue, visited)
            (partners_known pairs node known) in
        search_ends fuel s.0 s.1 (component ++ (node ∷ [])) (omega (arith, less))

    pub plan_from_ends :
        (rest visited : List String) (plan : SpawnPlan)
        → All (λ n. Memᴰ n ids) rest
        → (result : SpawnPlan) × (plan_from pairs (length ids) rest visited plan ≡ some result)
    plan_from_ends [] visited plan h = (plan, refl)
    plan_from_ends (id ∷ rest) visited plan h = elim (Bool-cases (has visited id)) [
      | inl e ↦ rw (plan_from, e) (plan_from_ends rest visited plan h.1)
      | inr e ↦
          let less = unvisited-visit ids visited id h.0 e in
          let most = unvisited-length ids visited in
          let (r, q) =
            search_ends (length ids) (id ∷ []) (id ∷ visited) [] (omega (arith, less, most)) in
          rw (plan_from, e, q) (plan_from_ends rest r.0 (add_component pairs r.1 plan) h.1)
    ]

-- Every id of a pair is one of the candidates'.
pairs_with-known :
    (ids : List String) (a : SpawnCandidate) (bs : List SpawnCandidate)
    → Memᴰ a.story_id ids
    → All (λ n. Memᴰ n ids) (map id_of bs)
    → All (λ (p : String × String). Memᴰ p.0 ids × Memᴰ p.1 ids) (pairs_with a bs)
pairs_with-known ids a [] m h = tt
pairs_with-known ids a (b ∷ bs) m h =
    elim (Bool-cases (write_sets_overlap a.allowed_write_set b.allowed_write_set)) [
      | inl e ↦ rw e ((m, h.0), pairs_with-known ids a bs m h.1)
      | inr e ↦ rw e (pairs_with-known ids a bs m h.1)
    ]

pub pairs_of-known :
    (ids : List String) (cs : List SpawnCandidate)
    → All (λ n. Memᴰ n ids) (map id_of cs)
    → All (λ (p : String × String). Memᴰ p.0 ids × Memᴰ p.1 ids) (pairs_of cs)
pairs_of-known ids [] h = tt
pairs_of-known ids (c ∷ cs) h =
    All-append (λ (p : String × String). Memᴰ p.0 ids × Memᴰ p.1 ids) (pairs_with c cs)
      (pairs_of cs) (pairs_with-known ids c cs h.0 h.1) (pairs_of-known ids cs h.1)
