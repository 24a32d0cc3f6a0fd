-- ===== src/Scheduling/Rounds.antt =====
-- One turn of the sequential scheduler, and how many turns a run takes.
use gateloop.Base.{
  ℕ, zero, suc, ◌+◌, ◌<◌, ◌≤◌, String, Bool, true, false, Option, none, some, List, [], ◌∷◌, ◌++◌,
  ◌≡◌, ◌≢◌, refl, sym, ap, ◌∙◌, subst, inl, inr, arith, eq_iff, eq_refl, Bool-cases, Ordering,
  find?, if◌then◌else◌, All, All-mem, Memᴰ, length,
}
use gateloop.Harness.State.{StoryRecord, StoryStatus, todo, in_progress, done}
use gateloop.Harness.Select.{select_next_story, selected_listed, is_todo, IsDone}
use gateloop.Scheduling.Sequential.{
  SchedulerOutcome, missing_story, run_budget_exceeded, all_done, SchedulerOptions, SchedulerState,
  Turn, finished, continues, named, with_status, mark, over_budget, after_checkpoint,
  after_inner_loop, run_story, turn, turns, run_sequential_scheduler,
}

abbrev pub HaveUniqueIds : List StoryRecord → Type 0
HaveUniqueIds [] = Unit
HaveUniqueIds (s ∷ stories) = All (λ t. s.story_id ≢ t.story_id) stories × HaveUniqueIds stories

not_named : (s : StoryRecord) (id : String) → s.story_id ≢ id → named id s ≡ false
not_named s id h = elim (Bool-cases (named id s)) [
  | inl e ↦ absurd (h ((eq_iff s.story_id id).0 e))
  | inr e ↦ e
]

find-named :
    (stories : List StoryRecord) (s : StoryRecord)
    → HaveUniqueIds stories
    → Memᴰ s stories
    → find? (named s.story_id) stories ≡ some s
find-named [] s u m = elim m [ ]
find-named (x ∷ stories) s u (Memᴰ.head e) =
    let here : named s.story_id x ≡ true =
      rw (ap (λ (t : StoryRecord). t.story_id) e) (eq_refl x.story_id) in
    rw here (ap some (sym e))
find-named (x ∷ stories) s u (Memᴰ.tail m) =
    let other = not_named x s.story_id (All-mem (λ t. x.story_id ≢ t.story_id) stories u.0 m) in
    rw other (find-named stories s u.1 m)

-- The turn took this story to its end.
pub record IsRound {World : Type 0} (s next : SchedulerState World) : Type 0 where
  pub story : StoryRecord
  pub listed : Memᴰ story s.stories
  pub waits : story.status ≡ todo
  pub ready : All (IsDone s.stories) story.depends_on
  pub stories_after :
      next.stories ≡ mark story.story_id done (mark story.story_id in_progress s.stories)
  pub completed_after : next.completed ≡ s.completed ++ (story.story_id ∷ [])
  pub counted : next.iterations ≡ s.iterations + 1

module _ {World : Type 0} (locale_compare : String → String → Ordering)
    (opts : SchedulerOptions World) where
  continued : {a b : SchedulerState World} → continues a ≡ continues b → a ≡ b
  continued h = cc

  -- What a turn of distinct stories does: it never misses a story, and goes on only after it took one
  -- to its end.
  pub data IsTurn (s : SchedulerState World) : Turn World → Type 0 where
    ends :
        (outcome : SchedulerOutcome) (last : SchedulerState World)
        → outcome ≢ missing_story
        → last.completed ≡ s.completed
        → IsTurn s (finished outcome last)
    goes_on : (next : SchedulerState World) → IsRound s next → IsTurn s (continues next)

  story-IsTurn :
      (s : SchedulerState World) (story : StoryRecord)
      → Memᴰ story s.stories
      → story.status ≡ todo
      → All (IsDone s.stories) story.depends_on
      → IsTurn s (run_story opts s (some story))
  story-IsTurn s story m t d = by_loop (opts.run_inner_loop (with_status in_progress story) s.world)
    where
      begun : SchedulerState World
      begun = record s { stories = mark story.story_id in_progress s.stories }

      by_checkpoint : (r : Bool × World) → IsTurn s (after_checkpoint begun story r)
      by_checkpoint (false, w) = ends _ _ (λ e. cc) refl
      by_checkpoint (true, w) = goes_on _ (record {
        story = story;
        listed = m;
        waits = t;
        ready = d;
        stories_after = refl;
        completed_after = refl;
        counted = refl;
      })

      by_loop : (r : Bool × World) → IsTurn s (after_inner_loop opts begun story r)
      by_loop (false, w) = ends _ _ (λ e. cc) refl
      by_loop (true, w) = by_checkpoint (opts.on_checkpoint (with_status in_progress story) w)

  pub turn-IsTurn :
      (s : SchedulerState World) → HaveUniqueIds s.stories → IsTurn s (turn locale_compare opts s)
  unfolding turn
  turn-IsTurn s u = elim (Bool-cases (over_budget opts.run_budget s.iterations)) [
    | inl e ↦ rw e (ends run_budget_exceeded s (λ h. cc) refl)
    | inr e ↦ rw e (by_selected (select_next_story locale_compare s.stories) refl)
  ]
    where
      by_selected :
          (o : Option String)
          → select_next_story locale_compare s.stories ≡ o
          → IsTurn s (elim o [
            | none ↦ finished all_done s
            | some id ↦ run_story opts s (find? (named id) s.stories)
          ])
      by_selected none e = ends all_done s (λ h. cc) refl
      by_selected (some id) e =
          let (story, m, n, t, d) = selected_listed locale_compare s.stories id e in
          let found : find? (named id) s.stories ≡ some story =
            subst (λ i. find? (named i) s.stories ≡ some story) n
              (find-named s.stories story u m) in
          rw found (story-IsTurn s story m t d)

pub mark_twice :
    (id : String) (a b : StoryStatus) (stories : List StoryRecord)
    → mark id a (mark id b stories) ≡ mark id a stories
mark_twice id a b [] = refl
mark_twice id a b (s ∷ stories) = elim (Bool-cases (named id s)) [
  | inl e ↦ rw (e, e) refl
  | inr e ↦ rw (e, e) (ap (λ xs. s ∷ xs) (mark_twice id a b stories))
]

pub All-mark :
    (P : StoryRecord → Type 0) (id : String) (status : StoryStatus) (stories : List StoryRecord)
    → ((s : StoryRecord) → P s → P (with_status status s))
    → All P stories
    → All P (mark id status stories)
All-mark P id status [] keeps h = tt
All-mark P id status (s ∷ stories) keeps h = elim (Bool-cases (named id s)) [
  | inl e ↦ rw e (keeps s h.0, h.1)
  | inr e ↦ rw e (h.0, All-mark P id status stories keeps h.1)
]

pub mark-HaveUniqueIds :
    (id : String) (status : StoryStatus) (stories : List StoryRecord)
    → HaveUniqueIds stories
    → HaveUniqueIds (mark id status stories)
mark-HaveUniqueIds id status [] h = tt
mark-HaveUniqueIds id status (s ∷ stories) h = elim (Bool-cases (named id s)) [
  | inl e ↦ rw e h
  | inr e ↦ rw e (
    All-mark (λ t. s.story_id ≢ t.story_id) id status stories (λ t k. k) h.0,
    mark-HaveUniqueIds id status stories h.1,
  )
]

abbrev pub todo_count : List StoryRecord → ℕ
todo_count [] = 0
todo_count (s ∷ stories) = (if is_todo s.status then 1 else 0) + todo_count stories

todo_count-length : (stories : List StoryRecord) → todo_count stories ≤ length stories
todo_count-length [] = omega arith
todo_count-length (s ∷ stories) = ground (arith, todo_count-length stories)

-- One of the stories that wait is done.
todo_count-mark :
    (stories : List StoryRecord) (s : StoryRecord)
    → HaveUniqueIds stories
    → Memᴰ s stories
    → s.status ≡ todo
    → todo_count stories ≡ suc (todo_count (mark s.story_id done stories))
todo_count-mark [] s u m t = elim m [ ]
todo_count-mark (x ∷ stories) s u (Memᴰ.head e) t =
    let here : named s.story_id x ≡ true =
      rw (ap (λ (y : StoryRecord). y.story_id) e) (eq_refl x.story_id) in
    let waits : is_todo x.status ≡ true =
      rw (sym (ap (λ (y : StoryRecord). y.status) e) ∙ t) refl in
    rw (here, waits) (omega arith)
todo_count-mark (x ∷ stories) s u (Memᴰ.tail m) t =
    let other = not_named x s.story_id (All-mem (λ y. x.story_id ≢ y.story_id) stories u.0 m) in
    rw other (omega (arith, todo_count-mark stories s u.1 m t))

module _ {World : Type 0} (locale_compare : String → String → Ordering)
    (opts : SchedulerOptions World) where
  abbrev pub Ends : Option (SchedulerOutcome × SchedulerState World) → Type 0
  Ends result =
      (outcome : SchedulerOutcome) × (last : SchedulerState World) × (result ≡ some (outcome, last))
      × (outcome ≢ missing_story)

  pub round-HaveUniqueIds :
      (s next : SchedulerState World)
      → HaveUniqueIds s.stories
      → IsRound s next
      → HaveUniqueIds next.stories
  round-HaveUniqueIds s next u r = subst HaveUniqueIds (sym r.stories_after) (
      mark-HaveUniqueIds r.story.story_id done (mark r.story.story_id in_progress s.stories)
        (mark-HaveUniqueIds r.story.story_id in_progress s.stories u))

  round_todo :
      (s next : SchedulerState World)
      → HaveUniqueIds s.stories
      → IsRound s next
      → todo_count s.stories ≡ suc (todo_count next.stories)
  round_todo s next u r =
      let after : next.stories ≡ mark r.story.story_id done s.stories =
        r.stories_after ∙ mark_twice r.story.story_id done in_progress s.stories in
      todo_count-mark s.stories r.story u r.listed r.waits
      ∙ sym (ap (λ xs. suc (todo_count xs)) after)

  turns-Ends :
      (fuel : ℕ) (s : SchedulerState World)
      → HaveUniqueIds s.stories
      → todo_count s.stories < fuel
      → Ends (turns locale_compare fuel opts s)
  turns-Ends zero s u h = absurd (omega arith)
  turns-Ends (suc fuel) s u h =
      by_turn (turn locale_compare opts s) (turn-IsTurn locale_compare opts s u) (λ next r.
        turns-Ends fuel next (round-HaveUniqueIds s next u r)
          (omega (arith, round_todo s next u r)))
    where
      by_turn :
          (t : Turn World)
          → IsTurn locale_compare opts s t
          → ((next : SchedulerState World)
              → IsRound s next
              → Ends (turns locale_compare fuel opts next))
          → Ends (elim t [
            | finished outcome last ↦ some (outcome, last)
            | continues next ↦ turns locale_compare fuel opts next
          ])
      by_turn (finished outcome last) (ends _ _ n _) later = (outcome, last, refl, n)
      by_turn (continues next) (goes_on _ r) later = later next r

  -- Where the ids of the stories are distinct, the scheduler ends after at most one turn more than there
  -- are stories, whatever the inner loop and the checkpoints answer, and it never looks for a story that
  -- is not there.
  pub scheduler-Ends :
      (stories : List StoryRecord) (w : World)
      → HaveUniqueIds stories
      → Ends (run_sequential_scheduler locale_compare (suc (length stories)) opts stories w)
  unfolding run_sequential_scheduler
  scheduler-Ends stories w u =
      let few = todo_count-length stories in
      turns-Ends (suc (length stories))
        (record { stories = stories; completed = []; iterations = 0; world = w }) u
        (omega (arith, few))
