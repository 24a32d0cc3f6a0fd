-- ===== src/Harness/Select.antt =====
-- Story selection of the harness (index.ts, lines 141 to 155). `locale_compare` is the runtime's
-- `String.prototype.localeCompare`.
use gateloop.Base.{
  String, Bool, true, false, ◌&&◌, Option, none, some, List, [], ◌∷◌, Ordering, ◌≡◌, refl, sym, ◌≢◌,
  ◌↔◌, arith, Memᴰ, All, All-mem, mem-filter, mem-filter_of, filter, all, any, subst, if◌then◌else◌,
  Bool-cases, inl, inr,
}
use gateloop.Base.Sort.{IsCollation, or_then, sort, mem-sort, sort_head_least}
use gateloop.Base.Comparator.{IsComparator, lexicographic-IsCollation}
use gateloop.Base.Ids.{has, ids_of, Named, all-has_iff}
use gateloop.Harness.State.{
  StoryRecord, StoryStatus, todo, in_progress, done, ParallelismClass, exclusive,
}

abbrev pub is_todo : StoryStatus → Bool
is_todo todo = true
is_todo _ = false

abbrev pub is_done : StoryStatus → Bool
is_done done = true
is_done _ = false

abbrev pub in_flight : StoryStatus → Bool
in_flight in_progress = true
in_flight _ = false

abbrev is_exclusive : ParallelismClass → Bool
is_exclusive exclusive = true
is_exclusive _ = false

abbrev pub exclusive_running : StoryRecord → Bool
exclusive_running s = is_exclusive s.parallelism_class && in_flight s.status

abbrev pub is_selectable : List StoryRecord → StoryRecord → Bool
is_selectable stories s =
    is_todo s.status
    && all (has (ids_of (λ (x : StoryRecord). x.story_id) (λ x. is_done x.status) stories))
        s.depends_on

abbrev pub first_id : List StoryRecord → Option String
first_id [] = none
first_id (s ∷ _) = some s.story_id

abbrev pub IsDone : List StoryRecord → String → Type 0
IsDone stories id = Named (λ (x : StoryRecord). x.story_id) (λ x. is_done x.status) stories id

abbrev pub IsSelectable : List StoryRecord → StoryRecord → Type 0
IsSelectable stories s = (s.status ≡ todo) × All (IsDone stories) s.depends_on

is_todo_iff : (status : StoryStatus) → (is_todo status ≡ true) ↔ (status ≡ todo)
is_todo_iff status = ((λ h. ground arith), (λ h. ground arith))

is_selectable_iff :
    (stories : List StoryRecord) (s : StoryRecord)
    → (is_selectable stories s ≡ true) ↔ IsSelectable stories s
is_selectable_iff stories s =
    let deps =
      all-has_iff (λ (x : StoryRecord). x.story_id) (λ x. is_done x.status) stories s.depends_on in
    (
      (λ h. ((is_todo_iff s.status).0 (ground arith), deps.0 (ground arith))),
      (λ (w, d). let waits = (is_todo_iff s.status).1 w in let done_all = deps.1 d in ground arith),
    )

module _ (locale_compare : String → String → Ordering) where
  abbrev pub story_order : StoryRecord → StoryRecord → Ordering
  story_order a b =
      or_then (locale_compare a.epic_id b.epic_id) (locale_compare a.story_id b.story_id)

  unfoldable pub select_next_story : List StoryRecord → Option String
  select_next_story stories =
      if any exclusive_running stories
      then none
      else first_id (sort story_order (filter (is_selectable stories) stories))

  -- Whatever `localeCompare` is, a selected id is that of a listed story that can be selected.
  pub selected_listed :
      (stories : List StoryRecord) (id : String)
      → select_next_story stories ≡ some id
      → (s : StoryRecord) × Memᴰ s stories
        × (s.story_id ≡ id)
        × (s.status ≡ todo)
        × All (IsDone stories) s.depends_on
  unfolding select_next_story
  selected_listed stories id e = elim (Bool-cases (any exclusive_running stories)) [
    | inl busy ↦ let bad : none ≡ some id = rw busy at e in cc
    | inr free ↦
        by_head (sort story_order (filter (is_selectable stories) stories)) refl (rw free at e)
  ]
    where
      by_head :
          (sorted : List StoryRecord)
          → sort story_order (filter (is_selectable stories) stories) ≡ sorted
          → first_id sorted ≡ some id
          → (s : StoryRecord) × Memᴰ s stories
            × (s.story_id ≡ id)
            × (s.status ≡ todo)
            × All (IsDone stories) s.depends_on
      by_head [] q h = cc
      by_head (s ∷ rest) q h =
          let m : Memᴰ s (sort story_order (filter (is_selectable stories) stories)) =
            subst (Memᴰ s) (sym q) (Memᴰ.head refl) in
          let (listed, passes) =
            mem-filter (is_selectable stories) stories
              (mem-sort story_order (filter (is_selectable stories) stories) m) in
          let (waits, ready) = (is_selectable_iff stories s).0 passes in
          (s, listed, cc, waits, ready)

  -- The selected story is listed, todo, has every dependency done, and none of the others is before
  -- it; no exclusive story is in progress.
  pub record IsNext (stories : List StoryRecord) (id : String) : Type 0 where
    pub story : StoryRecord
    pub listed : Memᴰ story stories
    pub named : story.story_id ≡ id
    pub selectable : IsSelectable stories story
    pub alone : any exclusive_running stories ≡ false
    pub first :
        (t : StoryRecord)
        → Memᴰ t stories
        → IsSelectable stories t
        → story_order story t ≢ Ordering.gt

  -- With a comparator for `localeCompare`: a selected id is that of a listed story that is todo with
  -- every dependency done, first by epic and id among such stories, and it is selected only while no
  -- exclusive story is in progress.
  pub selected-IsNext :
      IsComparator locale_compare
      → (stories : List StoryRecord) (id : String) → select_next_story stories ≡ some id
      → IsNext stories id
  unfolding select_next_story
  selected-IsNext l stories id e = elim (Bool-cases (any exclusive_running stories)) [
    | inl busy ↦ absurd (blocked busy)
    | inr free ↦ head free (sort story_order selectables) refl (chosen free)
  ]
    where
      selectables : List StoryRecord
      selectables = filter (is_selectable stories) stories

      blocked : any exclusive_running stories ≡ true → ⊥
      blocked busy = ground arith

      chosen :
          any exclusive_running stories ≡ false → first_id (sort story_order selectables) ≡ some id
      chosen free = ground arith

      collation : IsCollation story_order
      collation =
          lexicographic-IsCollation (λ a b. locale_compare a.epic_id b.epic_id)
            (λ a b. locale_compare a.story_id b.story_id)
            (record {
              flip = λ a b. l.flip a.epic_id b.epic_id;
              trans = λ a b c. l.trans a.epic_id b.epic_id c.epic_id;
            })
            (record {
              flip = λ a b. l.flip a.story_id b.story_id;
              trans = λ a b c. l.trans a.story_id b.story_id c.story_id;
            })

      head :
          any exclusive_running stories ≡ false
          → (sorted : List StoryRecord) → sort story_order selectables ≡ sorted
          → first_id sorted ≡ some id
          → IsNext stories id
      head free [] q h = cc
      head free (s ∷ rest) q h =
          let m : Memᴰ s (sort story_order selectables) = subst (Memᴰ s) (sym q) (Memᴰ.head refl) in
          let (listed, passes) =
            mem-filter (is_selectable stories) stories (mem-sort story_order selectables m) in
          let least = sort_head_least story_order collation selectables q in
          record {
            story = s;
            listed = listed;
            named = cc;
            selectable = (is_selectable_iff stories s).0 passes;
            alone = free;
            first = λ t mt rt.
                All-mem (λ z. story_order s z ≢ Ordering.gt) selectables least
                  (mem-filter_of (is_selectable stories) stories mt
                    ((is_selectable_iff stories t).1 rt));
          }
