-- ===== src/Scheduling/Planned.antt =====
-- The parallel batch of `computeSpawnPlan` and the overlapping pairs (spawn-plan.ts, lines 33 to 89).
use gateloop.Base.{
  ℕ, suc, String, Bool, true, false, Option, none, some, List, [], ◌∷◌, ◌++◌, ◌≡◌, ◌⊎◌, refl, ap,
  subst, inl, inr, arith, map, Bool-cases, any-false_iff, length, ltb, Memᴰ, All, All-map, All-mem,
  All-of_mem, All-append, ArePairwise, Ordering, filter,
}
use gateloop.Base.Sort.{sort, mem-sort}
use gateloop.Base.Ids.{has}
use mathlib.Core.Option.{some-injective}
use gateloop.Base.Text.{unit_compare}
use gateloop.Scheduling.SpawnPlan.{
  SpawnCandidate, SpawnPlan, neighbors, search, first_of, has_conflict, add_component, plan_from,
  pairs_with, pairs_of, sorted_parallels, write_sets_overlap, id_of, compute_spawn_plan,
  is_exclusive,
}
use gateloop.Scheduling.Neighbors.{Overlap, mem_append, has-not_mem, Overlap-neighbors}
use gateloop.Scheduling.Finishing.{plan_from_ends, pairs_of-known}
use gateloop.Scheduling.Searching.{Frontier, search-Frontier}

ArePairwise-append :
    (R : String → String → Type 0) (xs ys : List String)
    → ArePairwise R xs
    → ArePairwise R ys
    → ((x y : String) → Memᴰ x xs → Memᴰ y ys → R x y)
    → ArePairwise R (xs ++ ys)
ArePairwise-append R [] ys h k c = k
ArePairwise-append R (x ∷ xs) ys h k c = (
  All-append (R x) xs ys h.0 (All-of_mem (R x) ys (λ y m. c x y (Memᴰ.head refl) m)),
  ArePairwise-append R xs ys h.1 k (λ a y m n. c a y (Memᴰ.tail m) n),
)

ArePairwise-of_mem :
    (R : String → String → Type 0) (xs : List String)
    → ((x y : String) → Memᴰ x xs → R x y)
    → ArePairwise R xs
ArePairwise-of_mem R [] c = tt
ArePairwise-of_mem R (x ∷ xs) c = (
  All-of_mem (R x) xs (λ y m. c x y (Memᴰ.head refl)),
  ArePairwise-of_mem R xs (λ a y m. c a y (Memᴰ.tail m)),
)

module _ (pairs : List (String × String)) where
  abbrev pub Separate : String → String → Type 0
  Separate x y = Overlap pairs x y → ⊥

  -- Between the components: the visited ids are closed, and hold the batch.
  record IsSafe (visited batch : List String) : Type 0 where
    closed : (x y : String) → Memᴰ x visited → Overlap pairs x y → Memᴰ y visited
    inside : (x : String) → Memᴰ x batch → Memᴰ x visited
    apart : ArePairwise Separate batch

  swap_ends : (x y : String) → Overlap pairs x y → Overlap pairs y x
  swap_ends x y (inl m) = inr m
  swap_ends x y (inr m) = inl m

  no_conflict-Separate :
      (component : List String)
      → has_conflict pairs component ≡ false
      → (x y : String) → Memᴰ x component
      → Separate x y
  no_conflict-Separate component h x y m o =
      let none_near : ltb 0 (length (neighbors pairs x)) ≡ false =
        All-mem (λ id. ltb 0 (length (neighbors pairs id)) ≡ false) component
          ((any-false_iff (λ id. ltb 0 (length (neighbors pairs id))) component).0 h) m in
      no_place (neighbors pairs x) none_near (Overlap-neighbors pairs x y o)
    where
      no_place : (ns : List String) → ltb 0 (length ns) ≡ false → Memᴰ y ns → ⊥
      no_place [] e n = elim n [ ]
      no_place (a ∷ ns) e n = let bad : ltb 0 (suc (length ns)) ≡ false = e in ground arith

  -- New ids of the batch that were not visited and are apart from each other.
  extend-IsSafe :
      (visited after batch new : List String)
      → IsSafe visited batch
      → Frontier pairs visited [] after new
      → (ids : List String) → ((x : String) → Memᴰ x ids → Memᴰ x new)
      → ArePairwise Separate ids
      → IsSafe after (batch ++ ids)
  extend-IsSafe visited after batch new h f ids sub p = record {
    closed = λ x y m o. by_closing y x (f.closing x y m o);
    inside = λ x m. by_batch x (mem_append batch ids m);
    apart =
        ArePairwise-append Separate batch ids h.apart p
          (λ x y m n o. (f.found y (sub y n)).1 (h.closed x y (h.inside x m) o));
  }
    where
      by_closing : (y x : String) → Memᴰ y after ⊎ Memᴰ x [] → Memᴰ y after
      by_closing y x (inl m) = m
      by_closing y x (inr m) = elim m [ ]

      by_batch : (x : String) → Memᴰ x batch ⊎ Memᴰ x ids → Memᴰ x after
      by_batch x (inl m) = f.base x (h.inside x m)
      by_batch x (inr m) = (f.found x (sub x m)).0

  component-IsSafe :
      (visited after component : List String) (plan : SpawnPlan)
      → IsSafe visited plan.parallel_batch
      → Frontier pairs visited [] after component
      → IsSafe after (add_component pairs component plan).parallel_batch
  component-IsSafe visited after component plan h f =
      elim (Bool-cases (has_conflict pairs component)) [
        | inr e ↦ rw e (
            extend-IsSafe visited after plan.parallel_batch component h f
              (sort unit_compare component) (λ x m. mem-sort unit_compare component m)
              (ArePairwise-of_mem Separate (sort unit_compare component) (λ x y m.
                no_conflict-Separate component e x y (mem-sort unit_compare component m))))
        | inl e ↦
            rw e (by_first (sort unit_compare component) (λ x m. mem-sort unit_compare component m))
      ]
    where
      by_first :
          (ids : List String)
          → ((x : String) → Memᴰ x ids → Memᴰ x component)
          → IsSafe after (first_of ids plan).parallel_batch
      by_first [] sub = record {
        closed = λ x y m o. closing y x (f.closing x y m o);
        inside = λ x m. f.base x (h.inside x m);
        apart = h.apart;
      }
        where
          closing : (y x : String) → Memᴰ y after ⊎ Memᴰ x [] → Memᴰ y after
          closing y x (inl m) = m
          closing y x (inr m) = elim m [ ]
      by_first (id ∷ ids) sub =
          extend-IsSafe visited after plan.parallel_batch component h f (id ∷ [])
            (λ x m. sub x (one x m)) (tt, tt)
        where
          one : (x : String) → Memᴰ x (id ∷ []) → Memᴰ x (id ∷ ids)
          one x (Memᴰ.head e) = Memᴰ.head e
          one x (Memᴰ.tail m) = elim m [ ]

  plan_from-Separate :
      (fuel : ℕ) (ids visited : List String) (plan result : SpawnPlan)
      → IsSafe visited plan.parallel_batch
      → plan_from pairs fuel ids visited plan ≡ some result
      → ArePairwise Separate result.parallel_batch
  plan_from-Separate fuel [] visited plan result h e =
      let same : plan ≡ result = some-injective _ _ e in
      subst (λ (p : SpawnPlan). ArePairwise Separate p.parallel_batch) same h.apart
  plan_from-Separate fuel (id ∷ ids) visited plan result h e =
      by_visited (has visited id) refl e
        (λ after now k. plan_from-Separate fuel ids after now result k)
    where
      Rest : Type 0
      Rest =
          (after : List String) (now : SpawnPlan)
          → IsSafe after now.parallel_batch
          → plan_from pairs fuel ids after now ≡ some result
          → ArePairwise Separate result.parallel_batch

      begun : has visited id ≡ false → Frontier pairs visited (id ∷ []) (id ∷ visited) []
      begun q = record {
        base = λ x m. Memᴰ.tail m;
        closing = by_place;
        queued = by_queue;
        found = λ x m. elim m [ ];
      }
        where
          by_place :
              (x y : String)
              → Memᴰ x (id ∷ visited)
              → Overlap pairs x y
              → Memᴰ y (id ∷ visited) ⊎ Memᴰ x (id ∷ [])
          by_place x y (Memᴰ.head p) o = inr (Memᴰ.head p)
          by_place x y (Memᴰ.tail m) o = inl (Memᴰ.tail (h.closed x y m o))

          by_queue : (x : String) → Memᴰ x (id ∷ []) → Memᴰ x (id ∷ visited) × (Memᴰ x visited → ⊥)
          by_queue x (Memᴰ.head p) =
              (Memᴰ.head p, (λ m. has-not_mem visited id q (subst (λ y. Memᴰ y visited) p m)))
          by_queue x (Memᴰ.tail m) = elim m [ ]

      by_search :
          Frontier pairs visited (id ∷ []) (id ∷ visited) []
          → (o : Option (List String × List String))
          → search pairs fuel (id ∷ []) (id ∷ visited) [] ≡ o
          → ◌≡◌ {A = Option SpawnPlan}
              (elim o as (λ _. Option SpawnPlan) [
                | none ↦ none
                | some (after, component) ↦
                    plan_from pairs fuel ids after (add_component pairs component plan)
              ])
              (some result)
          → Rest
          → ArePairwise Separate result.parallel_batch
      by_search fresh none q k rest = cc
      by_search fresh (some (after, component)) q k rest =
          let f =
            search-Frontier pairs fuel visited (id ∷ []) (id ∷ visited) [] after component fresh
              q in
          rest after (add_component pairs component plan)
            (component-IsSafe visited after component plan h f) k

      by_visited :
          (b : Bool)
          → has visited id ≡ b
          → ◌≡◌ {A = Option SpawnPlan}
              (elim b as (λ _. Option SpawnPlan) [
                | true ↦ plan_from pairs fuel ids visited plan
                | false ↦
                    elim (search pairs fuel (id ∷ []) (id ∷ visited) [])
                      as (λ _. Option SpawnPlan) [
                        | none ↦ none
                        | some (after, component) ↦
                            plan_from pairs fuel ids after (add_component pairs component plan)
                      ]
              ])
              (some result)
          → Rest
          → ArePairwise Separate result.parallel_batch
      by_visited true q k rest = rest visited plan h k
      by_visited false q k rest =
          by_search (begun q) (search pairs fuel (id ∷ []) (id ∷ visited) []) refl k rest

abbrev pub Overlapping : SpawnCandidate → SpawnCandidate → Type 0
Overlapping a b = write_sets_overlap a.allowed_write_set b.allowed_write_set ≡ true

pairs_with_complete :
    (a : SpawnCandidate) (bs : List SpawnCandidate)
    → All (λ b. Overlapping a b → Memᴰ (id_of a, id_of b) (pairs_with a bs)) bs
pairs_with_complete a bs = All-of_mem _ bs (λ b m o. listed bs b m o)
  where
    listed :
        (cs : List SpawnCandidate) (b : SpawnCandidate)
        → Memᴰ b cs
        → Overlapping a b
        → Memᴰ (id_of a, id_of b) (pairs_with a cs)
    listed [] b m o = elim m [ ]
    listed (c ∷ cs) b (Memᴰ.head e) o =
        let here : Overlapping a c = subst (Overlapping a) e o in
        rw here (Memᴰ.head (ap (λ (x : SpawnCandidate). (id_of a, id_of x)) e))
    listed (c ∷ cs) b (Memᴰ.tail m) o =
        elim (Bool-cases (write_sets_overlap a.allowed_write_set c.allowed_write_set)) [
          | inl e ↦ rw e (Memᴰ.tail (listed cs b m o))
          | inr e ↦ rw e (listed cs b m o)
        ]

mem_before : {p : String × String} (xs ys : List (String × String)) → Memᴰ p xs → Memᴰ p (xs ++ ys)
mem_before [] ys m = elim m [ ]
mem_before (x ∷ xs) ys (Memᴰ.head e) = Memᴰ.head e
mem_before (x ∷ xs) ys (Memᴰ.tail m) = Memᴰ.tail (mem_before xs ys m)

mem_after : {p : String × String} (xs ys : List (String × String)) → Memᴰ p ys → Memᴰ p (xs ++ ys)
mem_after [] ys m = m
mem_after (x ∷ xs) ys m = Memᴰ.tail (mem_after xs ys m)

ArePairwise-map :
    (R S : SpawnCandidate → SpawnCandidate → Type 0) (cs : List SpawnCandidate)
    → ((a b : SpawnCandidate) → R a b → S a b)
    → ArePairwise R cs
    → ArePairwise S cs
ArePairwise-map R S [] f h = tt
ArePairwise-map R S (c ∷ cs) f h =
    (All-map (R c) (S c) cs (λ b k. f c b k) h.0, ArePairwise-map R S cs f h.1)

-- The ids of two candidates with overlapping write sets are among the pairs.
abbrev pub Paired : List (String × String) → SpawnCandidate → SpawnCandidate → Type 0
Paired pairs a b = Overlapping a b → Memᴰ (id_of a, id_of b) pairs

pairs_of_complete : (cs : List SpawnCandidate) → ArePairwise (Paired (pairs_of cs)) cs
pairs_of_complete [] = tt
pairs_of_complete (c ∷ cs) = (
  All-map (Paired (pairs_with c cs) c) (Paired (pairs_of (c ∷ cs)) c) cs
      (λ b k o. mem_before (pairs_with c cs) (pairs_of cs) (k o)) (pairs_with_complete c cs),
  ArePairwise-map (Paired (pairs_of cs)) (Paired (pairs_of (c ∷ cs))) cs
      (λ a b k o. mem_after (pairs_with c cs) (pairs_of cs) (k o)) (pairs_of_complete cs),
)

length-map : (cs : List SpawnCandidate) → length (map id_of cs) ≡ length cs
length-map [] = refl
length-map (c ∷ cs) = ap suc (length-map cs)

module _ (locale_compare : String → String → Ordering) where
  -- `computeSpawnPlan` finds a plan: its searches end within a turn for each candidate. The ids of any
  -- two of the sorted candidates that are not exclusive and whose write sets overlap are a pair, and no
  -- id of the parallel batch is paired with a later one, in either order.
  pub spawn_plan-Separate :
      (candidates : List SpawnCandidate)
      → (plan : SpawnPlan) × (compute_spawn_plan locale_compare candidates ≡ some plan)
        × ArePairwise
            (Paired (pairs_of (sorted_parallels locale_compare candidates)))
            (sorted_parallels locale_compare candidates)
        × ArePairwise
            (Separate (pairs_of (sorted_parallels locale_compare candidates)))
            plan.parallel_batch
  unfolding compute_spawn_plan
  spawn_plan-Separate candidates =
      let (plan, e) =
        plan_from_ends (map id_of sorted) pairs (pairs_of-known (map id_of sorted) sorted listed)
          (map id_of sorted) [] start listed in
      let found =
        subst (λ n. plan_from pairs n (map id_of sorted) [] start ≡ some plan) (length-map sorted)
          e in
      (
        plan,
        found,
        pairs_of_complete sorted,
        plan_from-Separate pairs (length sorted) (map id_of sorted) [] start plan safe found,
      )
    where
      sorted : List SpawnCandidate
      sorted = sorted_parallels locale_compare candidates

      pairs : List (String × String)
      pairs = pairs_of sorted

      listed : All (λ n. Memᴰ n (map id_of sorted)) (map id_of sorted)
      listed = All-of_mem (λ n. Memᴰ n (map id_of sorted)) (map id_of sorted) (λ n m. m)

      start : SpawnPlan
      start = record {
        parallel_batch = [];
        sequential_queue = map id_of (filter is_exclusive candidates);
        overlap_pairs = pairs;
      }

      safe : IsSafe pairs [] []
      safe = record { closed = λ x y m o. elim m [ ]; inside = λ x m. m; apart = tt }
