-- ===== src/Orchestrator/Select/Laws.antt =====
-- What the selected story satisfies: selectNextRuntimeStory against a description of the runnable
-- stories that does not mention the code's tests.
use gateloop.Base.{
  ◌<◌, String, true, none, some, List, [], ◌∷◌, Ordering, ◌≡◌, refl, sym, ◌≢◌, ◌↔◌, ◌⊎◌, inl, inr,
  Memᴰ, arith, All, All-map, All-mem, mem-filter, mem-filter_of, filter, ap, all, all_iff, str_eq,
  eq_iff, Bool-cases, subst, ◌∙◌,
}
use gateloop.Base.Sort.{IsCollation, sort, mem-sort, sort_head_least, sort_eq_nil}
use gateloop.Orchestrator.State.{
  RuntimeStory, RuntimeStoryStatus, todo, ready, done, is_done, is_waiting,
}
use gateloop.Orchestrator.Select.{
  done_ids, has, is_candidate, story_order, first_id, select_next_runtime_story,
}

-- A story of this id is done.
abbrev pub IsDone : List RuntimeStory → String → Type 0
IsDone stories id = (t : RuntimeStory) × Memᴰ t stories × (t.story_id ≡ id) × (t.status ≡ done)

abbrev pub IsRunnable : List RuntimeStory → RuntimeStory → Type 0
IsRunnable stories s = ((s.status ≡ todo) ⊎ (s.status ≡ ready)) × All (IsDone stories) s.depends_on

pub is_done→done : (status : RuntimeStoryStatus) → is_done status ≡ true → status ≡ done
is_done→done status h = ground arith

is_waiting_iff :
    (status : RuntimeStoryStatus)
    → (is_waiting status ≡ true) ↔ ((status ≡ todo) ⊎ (status ≡ ready))
is_waiting_iff status = ((λ h. ground arith), (λ h. ground arith))

done_ids_sound :
    (stories : List RuntimeStory) (id : String)
    → has (done_ids stories) id ≡ true
    → IsDone stories id
done_ids_sound [] id h = cc
done_ids_sound (s ∷ stories) id h = elim (Bool-cases (is_done s.status)) [
  | inl d ↦ elim (Bool-cases (str_eq s.story_id id)) [
    | inl e ↦ (s, Memᴰ.head refl, (eq_iff s.story_id id).0 e, is_done→done s.status d)
    | inr e ↦ let (t, m, n, k) = done_ids_sound stories id (ground arith) in (t, Memᴰ.tail m, n, k)
  ]
  | inr d ↦ let (t, m, n, k) = done_ids_sound stories id (ground arith) in (t, Memᴰ.tail m, n, k)
]

done_ids_complete :
    (stories : List RuntimeStory) (t : RuntimeStory)
    → Memᴰ t stories
    → t.status ≡ done
    → has (done_ids stories) t.story_id ≡ true
done_ids_complete [] t m d = elim m [ ]
done_ids_complete (s ∷ stories) t (Memᴰ.head e) d =
    let same : s.status ≡ done = ap (λ (x : RuntimeStory). x.status) (sym e) ∙ d in
    let named : s.story_id ≡ t.story_id = ap (λ (x : RuntimeStory). x.story_id) (sym e) in
    ground (arith, eq_iff s.story_id t.story_id)
done_ids_complete (s ∷ stories) t (Memᴰ.tail m) d = ground (arith, done_ids_complete stories t m d)

has-IsDone_iff :
    (stories : List RuntimeStory) (id : String)
    → (has (done_ids stories) id ≡ true) ↔ IsDone stories id
has-IsDone_iff stories id = (
  done_ids_sound stories id,
  λ (t, m, named, d).
      subst (λ x. has (done_ids stories) x ≡ true) named (done_ids_complete stories t m d),
)

pub is_candidate_iff :
    (stories : List RuntimeStory) (s : RuntimeStory)
    → (is_candidate stories s ≡ true) ↔ IsRunnable stories s
is_candidate_iff stories s = (forward, backward)
  where
    deps : (all (has (done_ids stories)) s.depends_on ≡ true) ↔ All (IsDone stories) s.depends_on
    deps =
        let h = all_iff (has (done_ids stories)) s.depends_on in
        (
          (λ e. All-map _ _ s.depends_on (λ id. (has-IsDone_iff stories id).0) (h.0 e)),
          (λ e. h.1 (All-map _ _ s.depends_on (λ id. (has-IsDone_iff stories id).1) e)),
        )

    forward : is_candidate stories s ≡ true → IsRunnable stories s
    forward h = ((is_waiting_iff s.status).0 (ground arith), deps.0 (ground arith))

    backward : IsRunnable stories s → is_candidate stories s ≡ true
    backward (w, d) =
        let waiting = (is_waiting_iff s.status).1 w in let done_all = deps.1 d in ground arith

module _ (locale_compare : String → String → Ordering) where
  story_order-IsCollation : IsCollation locale_compare → IsCollation (story_order locale_compare)
  story_order-IsCollation l = record {
    total = λ a b. ground (arith, l.total a.story_id b.story_id);
    trans = λ a b c. ground (arith, l.trans a.story_id b.story_id c.story_id);
  }

  -- The one is not after the other: the lower priority number is first, then the lower order_index, then
  -- the id.
  abbrev pub NotAfter : RuntimeStory → RuntimeStory → Type 0
  NotAfter s t =
      (s.priority < t.priority)
      ⊎ ((s.priority ≡ t.priority)
          × ((s.order_index < t.order_index)
              ⊎ ((s.order_index ≡ t.order_index)
                  × (locale_compare s.story_id t.story_id ≢ Ordering.gt))))

  story_order-NotAfter :
      (s t : RuntimeStory) → story_order locale_compare s t ≢ Ordering.gt → NotAfter s t
  story_order-NotAfter s t h = ground arith

  -- The story `id` is listed and runnable, and is not after any runnable story.
  pub record IsNext (stories : List RuntimeStory) (id : String) : Type 0 where
    pub story : RuntimeStory
    pub listed : Memᴰ story stories
    pub named : story.story_id ≡ id
    pub runnable : IsRunnable stories story
    pub first : (t : RuntimeStory) → Memᴰ t stories → IsRunnable stories t → NotAfter story t

  -- With a collation for `localeCompare`, a selected id is that of a listed story that is 'todo' or
  -- 'ready' with every dependency done, and every such story has a greater priority number, or the same
  -- and a greater order_index, or both the same and an id that is not before the selected one's.
  pub select-IsNext :
      IsCollation locale_compare
      → (stories : List RuntimeStory) (id : String)
      → select_next_runtime_story locale_compare stories ≡ some id
      → IsNext stories id
  unfolding select_next_runtime_story
  select-IsNext l stories id e = head (sort order runnables) refl e
    where
      order : RuntimeStory → RuntimeStory → Ordering
      order = story_order locale_compare

      runnables : List RuntimeStory
      runnables = filter (is_candidate stories) stories

      head :
          (sorted : List RuntimeStory)
          → sort order runnables ≡ sorted
          → first_id sorted ≡ some id
          → IsNext stories id
      head [] q h = cc
      head (s ∷ rest) q h =
          let m : Memᴰ s (sort order runnables) = subst (Memᴰ s) (sym q) (Memᴰ.head refl) in
          let (listed, candidate) =
            mem-filter (is_candidate stories) stories (mem-sort order runnables m) in
          let least = sort_head_least order (story_order-IsCollation l) runnables q in
          record {
            story = s;
            listed = listed;
            named = cc;
            runnable = (is_candidate_iff stories s).0 candidate;
            first = λ t mt rt. story_order-NotAfter s t (
                All-mem (λ z. order s z ≢ Ordering.gt) runnables least
                  (mem-filter_of (is_candidate stories) stories mt
                    ((is_candidate_iff stories t).1 rt)));
          }

  -- Nothing is selected exactly when no listed story is runnable.
  pub select_none_iff :
      (stories : List RuntimeStory)
      → (select_next_runtime_story locale_compare stories ≡ none)
        ↔ ((t : RuntimeStory) → Memᴰ t stories → ¬ IsRunnable stories t)
  unfolding select_next_runtime_story
  select_none_iff stories = (forward (sort order runnables) refl, backward)
    where
      order : RuntimeStory → RuntimeStory → Ordering
      order = story_order locale_compare

      runnables : List RuntimeStory
      runnables = filter (is_candidate stories) stories

      forward :
          (sorted : List RuntimeStory)
          → sort order runnables ≡ sorted
          → first_id sorted ≡ none
          → (t : RuntimeStory) → Memᴰ t stories
          → ¬ IsRunnable stories t
      forward [] q h t m r =
          let found =
            mem-filter_of (is_candidate stories) stories m ((is_candidate_iff stories t).1 r) in
          elim (subst (Memᴰ t) (sort_eq_nil order runnables q) found) [ ]
      forward (s ∷ rest) q h t m r = cc

      backward :
          ((t : RuntimeStory) → Memᴰ t stories → ¬ IsRunnable stories t)
          → first_id (sort order runnables) ≡ none
      backward none_runs =
          elim (sort order runnables)
              as (λ sorted. sort order runnables ≡ sorted → first_id sorted ≡ none) [
                | [] ↦ λ q. refl
                | s ∷ rest ↦ λ q.
                    let m : Memᴰ s (sort order runnables) =
                      subst (Memᴰ s) (sym q) (Memᴰ.head refl) in
                    let (listed, candidate) =
                      mem-filter (is_candidate stories) stories (mem-sort order runnables m) in
                    absurd (none_runs s listed ((is_candidate_iff stories s).0 candidate))
              ]
            refl
