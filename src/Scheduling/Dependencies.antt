-- ===== src/Scheduling/Dependencies.antt =====
-- The order in which the sequential scheduler completes stories.
use gateloop.Base.{
  ℕ, zero, suc, String, Option, some, List, [], ◌∷◌, ◌++◌, ◌≡◌, ◌≢◌, refl, sym, ap, ◌∙◌, subst, inl,
  inr, eq_iff, Bool-cases, Ordering, All, All-mem, All-map, All-of_mem, Memᴰ, length, ◌⊎◌,
}
use mathlib.Core.Option.{some-injective}
use gateloop.Harness.State.{StoryRecord, in_progress, done}
use gateloop.Harness.Select.{IsDone}
use gateloop.Scheduling.Sequential.{
  SchedulerOutcome, SchedulerOptions, SchedulerState, Turn, finished, continues, named, with_status,
  mark, turn, turns, run_sequential_scheduler,
}
use gateloop.Scheduling.Rounds.{
  HaveUniqueIds, IsRound, IsTurn, ends, goes_on, turn-IsTurn, mark_twice, All-mark,
  mark-HaveUniqueIds, scheduler-Ends,
}

-- Each dependency of each story of this id was done at the start or is among the seen ids.
abbrev pub IsReady : List StoryRecord → List String → String → Type 0
IsReady initial seen id =
    (s : StoryRecord)
    → Memᴰ s initial
    → s.story_id ≡ id
    → All (λ d. IsDone initial d ⊎ Memᴰ d seen) s.depends_on

abbrev IsListed : List StoryRecord → String → Type 0
IsListed initial id = (s : StoryRecord) × Memᴰ s initial × (s.story_id ≡ id)

-- The ids name stories of the start, each ready after the seen ids and those before it.
abbrev pub Follow : List StoryRecord → List String → List String → Type 0
Follow initial seen [] = Unit
Follow initial seen (id ∷ ids) =
    (IsListed initial id × IsReady initial seen id) × Follow initial (seen ++ (id ∷ [])) ids

append_nil : (xs : List String) → xs ++ [] ≡ xs
append_nil [] = refl
append_nil (x ∷ xs) = ap (λ ys. x ∷ ys) (append_nil xs)

append_assoc : (xs ys zs : List String) → (xs ++ ys) ++ zs ≡ xs ++ (ys ++ zs)
append_assoc [] ys zs = refl
append_assoc (x ∷ xs) ys zs = ap (λ ws. x ∷ ws) (append_assoc xs ys zs)

mem_left : {d : String} (xs ys : List String) → Memᴰ d xs → Memᴰ d (xs ++ ys)
mem_left [] ys m = elim m [ ]
mem_left (x ∷ xs) ys (Memᴰ.head e) = Memᴰ.head e
mem_left (x ∷ xs) ys (Memᴰ.tail m) = Memᴰ.tail (mem_left xs ys m)

mem_last : {d : String} (xs : List String) → Memᴰ d (xs ++ (d ∷ []))
mem_last [] = Memᴰ.head refl
mem_last (x ∷ xs) = Memᴰ.tail (mem_last xs)

Follow-snoc :
    (initial : List StoryRecord) (seen ids : List String) (id : String)
    → Follow initial seen ids
    → IsListed initial id
    → IsReady initial (seen ++ ids) id
    → Follow initial seen (ids ++ (id ∷ []))
Follow-snoc initial seen [] id h l r =
    ((l, subst (λ xs. IsReady initial xs id) (append_nil seen) r), tt)
Follow-snoc initial seen (x ∷ ids) id h l r = (
  h.0,
  Follow-snoc initial (seen ++ (x ∷ [])) ids id h.1 l
      (subst (λ xs. IsReady initial xs id) (sym (append_assoc seen (x ∷ []) ids)) r),
)

mem_unique :
    (stories : List StoryRecord) (s t : StoryRecord)
    → HaveUniqueIds stories
    → Memᴰ s stories
    → Memᴰ t stories
    → s.story_id ≡ t.story_id
    → s ≡ t
mem_unique [] s t u m n e = elim m [ ]
mem_unique (x ∷ stories) s t u (Memᴰ.head p) (Memᴰ.head q) e = p ∙ sym q
mem_unique (x ∷ stories) s t u (Memᴰ.head p) (Memᴰ.tail n) e = absurd (
    All-mem (λ y. x.story_id ≢ y.story_id) stories u.0 n
      (sym (ap (λ (y : StoryRecord). y.story_id) p) ∙ e))
mem_unique (x ∷ stories) s t u (Memᴰ.tail m) (Memᴰ.head q) e = absurd (
    All-mem (λ y. x.story_id ≢ y.story_id) stories u.0 m
      (sym (ap (λ (y : StoryRecord). y.story_id) q) ∙ sym e))
mem_unique (x ∷ stories) s t u (Memᴰ.tail m) (Memᴰ.tail n) e = mem_unique stories s t u.1 m n e

-- Who is done after a story is: it, and those who were.
done-mark :
    (id d : String) (stories : List StoryRecord)
    → IsDone (mark id done stories) d
    → IsDone stories d ⊎ (id ≡ d)
done-mark id d [] (s, m, n, k) = elim m [ ]
done-mark id d (x ∷ stories) h = elim (Bool-cases (named id x)) [
  | inl e ↦ marked ((eq_iff x.story_id id).0 e) (rw e at h)
  | inr e ↦ kept (rw e at h) (done-mark id d stories)
]
  where
    marked :
        x.story_id ≡ id
        → IsDone (with_status done x ∷ stories) d
        → IsDone (x ∷ stories) d ⊎ (id ≡ d)
    marked e (s, Memᴰ.head p, n, k) = inr (sym e ∙ sym (ap (λ (y : StoryRecord). y.story_id) p) ∙ n)
    marked e (s, Memᴰ.tail m, n, k) = inl (s, Memᴰ.tail m, n, k)

    kept :
        IsDone (x ∷ mark id done stories) d
        → (IsDone (mark id done stories) d → IsDone stories d ⊎ (id ≡ d))
        → IsDone (x ∷ stories) d ⊎ (id ≡ d)
    kept (s, Memᴰ.head p, n, k) ih = inl (s, Memᴰ.head p, n, k)
    kept (s, Memᴰ.tail m, n, k) ih = elim (ih (s, m, n, k)) [
      | inl (t, mt, nt, kt) ↦ inl (t, Memᴰ.tail mt, nt, kt)
      | inr q ↦ inr q
    ]

-- A story of the start with the same id and dependencies.
abbrev Known : List StoryRecord → StoryRecord → Type 0
Known initial s =
    (t : StoryRecord) × Memᴰ t initial × (t.story_id ≡ s.story_id) × (t.depends_on ≡ s.depends_on)

module _ {World : Type 0} (initial : List StoryRecord) (unique : HaveUniqueIds initial) where
  -- What holds between the turns.
  record InOrder (s : SchedulerState World) : Type 0 where
    distinct : HaveUniqueIds s.stories
    known : All (Known initial) s.stories
    accounted : (d : String) → IsDone s.stories d → IsDone initial d ⊎ Memᴰ d s.completed
    ordered : Follow initial [] s.completed

  round-InOrder : (s next : SchedulerState World) → InOrder s → IsRound s next → InOrder next
  round-InOrder s next h r = record {
    distinct = round-distinct;
    known =
        subst (All (Known initial)) (sym after)
          (All-mark (Known initial) id done s.stories (λ t k. k) h.known);
    accounted = accounted_next;
    ordered =
        subst (Follow initial []) (sym r.completed_after)
          (Follow-snoc initial [] s.completed id h.ordered (t, mt, et) ready);
  }
    where
      id : String
      id = r.story.story_id

      after : next.stories ≡ mark id done s.stories
      after = r.stories_after ∙ mark_twice id done in_progress s.stories

      round-distinct : HaveUniqueIds next.stories
      round-distinct =
          subst HaveUniqueIds (sym after) (mark-HaveUniqueIds id done s.stories h.distinct)

      origin : Known initial r.story
      origin = All-mem (Known initial) s.stories h.known r.listed

      t : StoryRecord
      t = origin.0

      mt : Memᴰ t initial
      mt = origin.1

      et : t.story_id ≡ id
      et = origin.2

      SeenReady : String → Type 0
      SeenReady d = IsDone initial d ⊎ Memᴰ d s.completed

      ready : IsReady initial s.completed id
      ready u m e =
          let same : t ≡ u = mem_unique initial t u unique mt m (et ∙ sym e) in
          subst (λ (y : StoryRecord). All SeenReady y.depends_on) same
            (subst (All SeenReady) (sym origin.3)
              (All-map (IsDone s.stories) SeenReady r.story.depends_on h.accounted r.ready))

      accounted_next :
          (d : String) → IsDone next.stories d → IsDone initial d ⊎ Memᴰ d next.completed
      accounted_next d k = elim (done-mark id d s.stories (subst (λ xs. IsDone xs d) after k)) [
        | inl before ↦ elim (h.accounted d before) [
          | inl i ↦ inl i
          | inr m ↦ inr (subst (Memᴰ d) (sym r.completed_after) (mem_left s.completed (id ∷ []) m))
        ]
        | inr e ↦ inr (
            subst (Memᴰ d) (sym r.completed_after)
              (subst (λ i. Memᴰ d (s.completed ++ (i ∷ []))) (sym e) (mem_last s.completed)))
      ]

module _ {World : Type 0} (locale_compare : String → String → Ordering)
    (opts : SchedulerOptions World) (initial : List StoryRecord)
    (unique : HaveUniqueIds initial) where
  turns-Follow :
      (fuel : ℕ) (s last : SchedulerState World) (outcome : SchedulerOutcome)
      → InOrder initial unique s
      → turns locale_compare fuel opts s ≡ some (outcome, last)
      → Follow initial [] last.completed
  turns-Follow zero s last outcome h e = cc
  turns-Follow (suc fuel) s last outcome h e =
      by_turn (turn locale_compare opts s) (turn-IsTurn locale_compare opts s h.distinct) e
        (λ next r. turns-Follow fuel next last outcome (round-InOrder initial unique s next h r))
    where
      by_turn :
          (t : Turn World)
          → IsTurn locale_compare opts s t
          → ◌≡◌ {A = Option (SchedulerOutcome × SchedulerState World)}
              (elim t as (λ _. Option (SchedulerOutcome × SchedulerState World)) [
                | finished o l ↦ some (o, l)
                | continues next ↦ turns locale_compare fuel opts next
              ])
              (some (outcome, last))
          → ((next : SchedulerState World)
              → IsRound s next
              → turns locale_compare fuel opts next ≡ some (outcome, last)
              → Follow initial [] last.completed)
          → Follow initial [] last.completed
      by_turn (finished o l) (ends _ _ _ c) k later =
          let same : (o, l) ≡ (outcome, last) = some-injective _ _ k in
          let kept : l.completed ≡ last.completed =
            ap (λ (x : SchedulerOutcome × SchedulerState World). x.1.completed) same in
          subst (Follow initial []) (sym c ∙ kept) h.ordered
      by_turn (continues next) (goes_on _ r) k later = later next r k

  -- Where the ids of the stories are distinct, one turn more than there are stories ends the run, and
  -- in the order of completion each id is that of a story of the start, whose dependencies were all done
  -- at the start or completed earlier.
  pub scheduler-Follow :
      (w : World)
      → (outcome : SchedulerOutcome) × (last : SchedulerState World) × (run_sequential_scheduler
            locale_compare
            (suc (length initial))
            opts
            initial
            w
          ≡ some (outcome, last))
        × Follow initial [] last.completed
  unfolding run_sequential_scheduler
  scheduler-Follow w =
      let (outcome, last, e, _) = scheduler-Ends locale_compare opts initial w unique in
      (outcome, last, e, turns-Follow (suc (length initial)) start last outcome begun e)
    where
      start : SchedulerState World
      start = record { stories = initial; completed = []; iterations = 0; world = w }

      begun : InOrder initial unique start
      begun = record {
        distinct = unique;
        known = All-of_mem (Known initial) initial (λ s m. (s, m, refl, refl));
        accounted = λ d k. inl k;
        ordered = tt;
      }
