-- ===== src/Scheduling/Searching.antt =====
-- The searches of `computeSpawnPlan` and the ids that they visit (spawn-plan.ts, lines 60 to 75).
use gateloop.Base.{
  ℕ, zero, suc, String, some, List, [], ◌∷◌, ◌++◌, ◌≡◌, ◌⊎◌, refl, sym, subst, inl, inr, Bool-cases,
  Memᴰ,
}
use gateloop.Base.Ids.{has}
use mathlib.Core.Option.{some-injective}
use gateloop.Scheduling.SpawnPlan.{neighbors, visit_all, search}
use gateloop.Scheduling.Neighbors.{
  Overlap, mem_append, mem_left, mem_right, has-mem, has-not_mem, Overlap-neighbors,
}

-- What visiting the ids `ns` does to a queue and a list of visited ids.
pub record Visits (ns queue visited queue' visited' : List String) : Type 0 where
  grows : (x : String) → Memᴰ x visited → Memᴰ x visited'
  keeps : (x : String) → Memᴰ x queue → Memᴰ x queue'
  reaches : (x : String) → Memᴰ x ns → Memᴰ x visited'
  new : (x : String) → Memᴰ x visited' → Memᴰ x visited ⊎ Memᴰ x queue'
  fresh : (x : String) → Memᴰ x queue' → Memᴰ x queue ⊎ ((Memᴰ x visited → ⊥) × Memᴰ x visited')

module _ (pairs : List (String × String)) where
  visit_all-Visits :
      (ns queue visited : List String)
      → let s = visit_all ns (queue, visited) in Visits ns queue visited s.0 s.1
  visit_all-Visits [] queue visited = record {
    grows = λ x m. m;
    keeps = λ x m. m;
    reaches = λ x m. elim m [ ];
    new = λ x m. inl m;
    fresh = λ x m. inl m;
  }
  visit_all-Visits (n ∷ ns) queue visited = elim (Bool-cases (has visited n)) [
    | inl e ↦
        subst (λ (s : List String × List String). After (visit_all ns s)) (sym (rw e refl))
          (old (has-mem visited n e) (visit_all-Visits ns queue visited))
    | inr e ↦
        subst (λ (s : List String × List String). After (visit_all ns s)) (sym (rw e refl))
          (added (has-not_mem visited n e) (visit_all-Visits ns (queue ++ (n ∷ [])) (n ∷ visited)))
  ]
    where
      After : List String × List String → Type 0
      After s = Visits (n ∷ ns) queue visited s.0 s.1

      old :
          Memᴰ n visited
          → {q v : List String} → Visits ns queue visited q v
          → Visits (n ∷ ns) queue visited q v
      old here {q} {v} h = record {
        grows = h.grows;
        keeps = h.keeps;
        reaches = by_place;
        new = h.new;
        fresh = h.fresh;
      }
        where
          by_place : (x : String) → Memᴰ x (n ∷ ns) → Memᴰ x v
          by_place x (Memᴰ.head e) = h.grows x (subst (λ y. Memᴰ y visited) (sym e) here)
          by_place x (Memᴰ.tail m) = h.reaches x m

      added :
          (Memᴰ n visited → ⊥)
          → {q v : List String} → Visits ns (queue ++ (n ∷ [])) (n ∷ visited) q v
          → Visits (n ∷ ns) queue visited q v
      added away {q} {v} h = record {
        grows = λ x m. h.grows x (Memᴰ.tail m);
        keeps = λ x m. h.keeps x (mem_left queue (n ∷ []) m);
        reaches = by_place;
        new = λ x m. by_new x (h.new x m);
        fresh = λ x m. by_fresh x (h.fresh x m);
      }
        where
          by_place : (x : String) → Memᴰ x (n ∷ ns) → Memᴰ x v
          by_place x (Memᴰ.head e) = h.grows x (Memᴰ.head e)
          by_place x (Memᴰ.tail m) = h.reaches x m

          by_new : (x : String) → Memᴰ x (n ∷ visited) ⊎ Memᴰ x q → Memᴰ x visited ⊎ Memᴰ x q
          by_new x (inl (Memᴰ.head e)) = inr (h.keeps x (mem_right queue (n ∷ []) (Memᴰ.head e)))
          by_new x (inl (Memᴰ.tail m)) = inl m
          by_new x (inr m) = inr m

          by_queue :
              (x : String)
              → Memᴰ x queue ⊎ Memᴰ x (n ∷ [])
              → Memᴰ x queue ⊎ ((Memᴰ x visited → ⊥) × Memᴰ x v)
          by_queue x (inl m) = inl m
          by_queue x (inr (Memᴰ.head e)) =
              inr ((λ m. away (subst (λ y. Memᴰ y visited) e m)), h.grows x (Memᴰ.head e))
          by_queue x (inr (Memᴰ.tail m)) = elim m [ ]

          by_fresh :
              (x : String)
              → Memᴰ x (queue ++ (n ∷ [])) ⊎ ((Memᴰ x (n ∷ visited) → ⊥) × Memᴰ x v)
              → Memᴰ x queue ⊎ ((Memᴰ x visited → ⊥) × Memᴰ x v)
          by_fresh x (inl m) = by_queue x (mem_append queue (n ∷ []) m)
          by_fresh x (inr (k, m)) = inr ((λ i. k (Memᴰ.tail i)), m)

  -- Between the turns of a search that began with the ids `old` visited.
  pub record Frontier (old queue visited component : List String) : Type 0 where
    pub base : (x : String) → Memᴰ x old → Memᴰ x visited
    pub closing :
        (x y : String) → Memᴰ x visited → Overlap pairs x y → Memᴰ y visited ⊎ Memᴰ x queue
    pub queued : (x : String) → Memᴰ x queue → Memᴰ x visited × (Memᴰ x old → ⊥)
    pub found : (x : String) → Memᴰ x component → Memᴰ x visited × (Memᴰ x old → ⊥)

  turn-Frontier :
      (old : List String) (node : String) (queue visited component : List String)
      → Frontier old (node ∷ queue) visited component
      → let s = visit_all (neighbors pairs node) (queue, visited) in
        Frontier old s.0 s.1 (component ++ (node ∷ []))
  turn-Frontier old node queue visited component h =
      by_visits (visit_all-Visits (neighbors pairs node) queue visited)
    where
      by_visits :
          {q v : List String}
          → Visits (neighbors pairs node) queue visited q v
          → Frontier old q v (component ++ (node ∷ []))
      by_visits {q} {v} k = record {
        base = λ x m. k.grows x (h.base x m);
        closing = λ x y m o. by_new x y o (k.new x m);
        queued = λ x m. by_queue x (k.fresh x m);
        found = λ x m. by_found x (mem_append component (node ∷ []) m);
      }
        where
          by_head : (x y : String) → Overlap pairs x y → Memᴰ x (node ∷ queue) → Memᴰ y v ⊎ Memᴰ x q
          by_head x y o (Memᴰ.head e) =
              inl
                (k.reaches y (Overlap-neighbors pairs node y (subst (λ z. Overlap pairs z y) e o)))
          by_head x y o (Memᴰ.tail m) = inr (k.keeps x m)

          by_new :
              (x y : String) → Overlap pairs x y → Memᴰ x visited ⊎ Memᴰ x q → Memᴰ y v ⊎ Memᴰ x q
          by_new x y o (inl m) = elim (h.closing x y m o) [
            | inl n ↦ inl (k.grows y n)
            | inr n ↦ by_head x y o n
          ]
          by_new x y o (inr m) = inr m

          by_queue :
              (x : String)
              → Memᴰ x queue ⊎ ((Memᴰ x visited → ⊥) × Memᴰ x v)
              → Memᴰ x v × (Memᴰ x old → ⊥)
          by_queue x (inl m) = let (i, a) = h.queued x (Memᴰ.tail m) in (k.grows x i, a)
          by_queue x (inr (a, m)) = (m, (λ i. a (h.base x i)))

          by_found :
              (x : String) → Memᴰ x component ⊎ Memᴰ x (node ∷ []) → Memᴰ x v × (Memᴰ x old → ⊥)
          by_found x (inl m) = let (i, a) = h.found x m in (k.grows x i, a)
          by_found x (inr (Memᴰ.head e)) = let (i, a) = h.queued x (Memᴰ.head e) in (k.grows x i, a)
          by_found x (inr (Memᴰ.tail m)) = elim m [ ]

  pub search-Frontier :
      (fuel : ℕ) (old queue visited component after found : List String)
      → Frontier old queue visited component
      → search pairs fuel queue visited component ≡ some (after, found)
      → Frontier old [] after found
  search-Frontier fuel old [] visited component after found h e =
      let same : ◌≡◌ {A = List String × List String} (visited, component) (after, found) =
        some-injective _ _ e in
      subst (λ (p : List String × List String). Frontier old [] p.0 p.1) same h
  search-Frontier zero old (node ∷ queue) visited component after found h e = cc
  search-Frontier (suc fuel) old (node ∷ queue) visited component after found h e =
      let s = visit_all (neighbors pairs node) (queue, visited) in
      search-Frontier fuel old s.0 s.1 (component ++ (node ∷ [])) after found
        (turn-Frontier old node queue visited component h) e
