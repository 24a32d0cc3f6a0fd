-- ===== src/Scheduling/SpawnPlan.antt =====
-- `computeSpawnPlan` and its cap (spawn-plan.ts, lines 1 to 135). `locale_compare` is the runtime's
-- `localeCompare`; the order of `sort()` without a comparison is that of UTF-16 units. The neighbours of
-- a story are read off the overlapping pairs, by which the source fills its map.
use gateloop.Base.{
  ℕ, zero, suc, String, Bool, true, false, not, ◌||◌, Option, none, some, List, [], ◌∷◌, ◌++◌, map,
  any, filter, length, leb, ltb, ◌==◌, max, take, drop, str_eq, get_or, Ordering, if◌then◌else◌,
}
use gateloop.Base.Sort.{sort}
use gateloop.Base.Ids.{has}
use gateloop.Base.Text.{codes, starts_with, unit_compare}
use gateloop.Harness.State.{ParallelismClass, exclusive}

pub record SpawnCandidate : Type 0 where
  pub story_id : String
  pub parallelism_class : ParallelismClass
  pub allowed_write_set : List String

pub record SpawnPlan : Type 0 where
  pub parallel_batch : List String
  pub sequential_queue : List String
  pub overlap_pairs : List (String × String)

-- The text before the first `*`, `?` or `{`.
abbrev before_wildcard : List ℕ → List ℕ
before_wildcard [] = []
before_wildcard (c ∷ s) =
    let rest = c ∷ before_wildcard s in if (c == 42) || ((c == 63) || (c == 123)) then [] else rest

abbrev with_slash : ℕ → Option (List ℕ) → Option (List ℕ)
with_slash c (some s) = some (c ∷ s)
with_slash c none = if c == 47 then some (c ∷ []) else none

-- The text up to its last slash; `none` where it has none.
abbrev through_slash : List ℕ → Option (List ℕ)
through_slash [] = none
through_slash (c ∷ s) = with_slash c (through_slash s)

abbrev pub glob_prefix : String → List ℕ
glob_prefix glob = let prefix = before_wildcard (codes glob) in get_or (through_slash prefix) prefix

abbrev pub write_sets_overlap : List String → List String → Bool
write_sets_overlap a b =
    any
      (λ ga.
        any
          (λ gb.
            starts_with (glob_prefix gb) (glob_prefix ga)
            || starts_with (glob_prefix ga) (glob_prefix gb))
          b)
      a

abbrev pub is_exclusive : SpawnCandidate → Bool
is_exclusive c = elim c.parallelism_class [ exclusive ↦ true | _ ↦ false ]

abbrev pub pairs_with : SpawnCandidate → List SpawnCandidate → List (String × String)
pairs_with a [] = []
pairs_with a (b ∷ bs) =
    let rest = pairs_with a bs in
    if write_sets_overlap a.allowed_write_set b.allowed_write_set
    then (a.story_id, b.story_id) ∷ rest
    else rest

-- The two nested loops over the sorted candidates.
abbrev pub pairs_of : List SpawnCandidate → List (String × String)
pairs_of [] = []
pairs_of (a ∷ bs) = pairs_with a bs ++ pairs_of bs

abbrev pub partner : String × String → String → List String
partner (a, b) node =
    (if str_eq a node then b ∷ [] else []) ++ (if str_eq b node then a ∷ [] else [])

abbrev pub partners : List (String × String) → String → List String
partners [] node = []
partners (p ∷ ps) node = partner p node ++ partners ps node

-- A node that is not visited yet is visited and queued.
abbrev pub visit : String → List String × List String → List String × List String
visit n (queue, visited) =
    if has visited n then (queue, visited) else (queue ++ (n ∷ []), n ∷ visited)

abbrev pub visit_all : List String → List String × List String → List String × List String
visit_all [] s = s
visit_all (n ∷ ns) s = visit_all ns (visit n s)

abbrev pub first_of : List String → SpawnPlan → SpawnPlan
first_of [] plan = plan
first_of (id ∷ ids) plan = record plan {
  parallel_batch = plan.parallel_batch ++ (id ∷ []);
  sequential_queue = plan.sequential_queue ++ ids;
}

module _ (pairs : List (String × String)) where
  abbrev pub neighbors : String → List String
  neighbors node = partners pairs node

  -- The loop on the queue, with the ids visited and the component found; `none` where it takes more
  -- turns than `fuel`.
  abbrev pub search :
      ℕ → List String → List String → List String → Option (List String × List String)
  search fuel [] visited component = some (visited, component)
  search zero (node ∷ queue) visited component = none
  search (suc fuel) (node ∷ queue) visited component =
      let s = visit_all (neighbors node) (queue, visited) in
      search fuel s.0 s.1 (component ++ (node ∷ []))

  abbrev pub has_conflict : List String → Bool
  has_conflict component = any (λ id. ltb 0 (length (neighbors id))) component

  abbrev pub add_component : List String → SpawnPlan → SpawnPlan
  add_component component plan =
      let ids = sort unit_compare component in
      if has_conflict component
      then first_of ids plan
      else record plan { parallel_batch = plan.parallel_batch ++ ids }

  -- The loop over the sorted candidates.
  abbrev pub plan_from : ℕ → List String → List String → SpawnPlan → Option SpawnPlan
  plan_from fuel [] visited plan = some plan
  plan_from fuel (id ∷ ids) visited plan = elim (has visited id) [
    | true ↦ plan_from fuel ids visited plan
    | false ↦ elim (search fuel (id ∷ []) (id ∷ visited) []) [
      | none ↦ none
      | some (after, component) ↦ plan_from fuel ids after (add_component component plan)
    ]
  ]

abbrev pub id_of : SpawnCandidate → String
id_of c = c.story_id

module _ (locale_compare : String → String → Ordering) where
  abbrev pub sorted_parallels : List SpawnCandidate → List SpawnCandidate
  sorted_parallels candidates =
      sort (λ a b. locale_compare a.story_id b.story_id)
        (filter (λ c. not (is_exclusive c)) candidates)

  -- A search takes at most a turn for each candidate.
  unfoldable pub compute_spawn_plan : List SpawnCandidate → Option SpawnPlan
  compute_spawn_plan candidates =
      let sorted = sorted_parallels candidates in
      let pairs = pairs_of sorted in
      plan_from pairs (length sorted) (map id_of sorted) [] (record {
        parallel_batch = [];
        sequential_queue = map id_of (filter is_exclusive candidates);
        overlap_pairs = pairs;
      })

  unfoldable pub apply_wip_cap : SpawnPlan → ℕ → SpawnPlan
  apply_wip_cap plan max_wip =
      let cap = max 1 max_wip in
      let sorted = sort locale_compare plan.parallel_batch in
      if leb (length plan.parallel_batch) cap then plan else record plan {
        parallel_batch = take cap sorted;
        sequential_queue = drop cap sorted ++ plan.sequential_queue;
      }
