-- ===== src/StoryManager/Conditions.antt =====
-- What the gates of the admission look at, described without the code's tests, and that the tests
-- find it.
use gateloop.Base.{
  ℕ, String, true, false, Option, none, some, get_or, List, [], ◌∷◌, ◌≡◌, ◌≢◌, ◌↔◌, refl, subst,
  arith, inl, inr, Memᴰ, All, All-map, all_iff, any-true_iff, filter, length, ltb, ◌&&◌, str_eq,
  eq_iff, eq_refl, Bool-cases, Option-cases,
}
use gateloop.Base.Ids.{has}
use gateloop.Base.Tally.{Tally, filter-Tally, Tally-filter}
use gateloop.Harness.State.{StoryStatus, StoryRecord, in_progress, done}
use gateloop.Harness.Select.{is_done, in_flight}
use gateloop.Scheduling.SpawnPlan.{SpawnPlan}
use gateloop.StoryManager.Admission.{
  WaveState, open_wave, closed_wave, ExtendedStory, AdmissionContext, last_of_id, status_done,
  deps_done, wave_of, wave_open, running_in_epic, must_wait,
}

-- The last listed story with the id is done.
pub data LastIsDone (id : String) : List ExtendedStory → Type 0 where
  this :
      {s : ExtendedStory} {stories : List ExtendedStory}
      → s.story.story_id ≡ id
      → s.story.status ≡ done
      → All (λ (t : ExtendedStory). t.story.story_id ≢ id) stories
      → LastIsDone id (s ∷ stories)
  later :
      {s : ExtendedStory} {stories : List ExtendedStory}
      → LastIsDone id stories
      → LastIsDone id (s ∷ stories)

-- The first entry of the wave is open.
pub data FirstIsOpen (id : String) : List (String × WaveState) → Type 0 where
  this :
      {name : String} {waves : List (String × WaveState)}
      → name ≡ id
      → FirstIsOpen id ((name, open_wave) ∷ waves)
  later :
      {name : String} {state : WaveState} {waves : List (String × WaveState)}
      → name ≢ id
      → FirstIsOpen id waves
      → FirstIsOpen id ((name, state) ∷ waves)

-- A story without a wave waits for none, and a registry that is absent has no entry.
abbrev pub WaveIsOpen : Option (List (String × WaveState)) → Option String → Type 0
WaveIsOpen registry none = Unit
WaveIsOpen registry (some id) = FirstIsOpen id (get_or registry [])

abbrev pub RunsIn : String → ExtendedStory → Type 0
RunsIn epic s = (s.story.status ≡ in_progress) × (s.story.epic_id ≡ epic)

is_done_iff : (status : StoryStatus) → (is_done status ≡ true) ↔ (status ≡ done)
is_done_iff status = ((λ h. ground arith), (λ h. ground arith))

in_flight_iff : (status : StoryStatus) → (in_flight status ≡ true) ↔ (status ≡ in_progress)
in_flight_iff status = ((λ h. ground arith), (λ h. ground arith))

not_in_flight_iff : (status : StoryStatus) → (in_flight status ≡ false) ↔ (status ≢ in_progress)
not_in_flight_iff status = (
  (λ h e. let t = (in_flight_iff status).1 e in cc),
  (λ n. elim (Bool-cases (in_flight status)) [
    | inl b ↦ absurd (n ((in_flight_iff status).0 b))
    | inr b ↦ b
  ]),
)

str_eq-false_iff : (a b : String) → (str_eq a b ≡ false) ↔ (a ≢ b)
str_eq-false_iff a b = (
  (λ h e. let t = (eq_iff a b).1 e in cc),
  (λ n. elim (Bool-cases (str_eq a b)) [ inl t ↦ absurd (n ((eq_iff a b).0 t)) | inr f ↦ f ]),
)

last_of_id-none :
    (id : String) (stories : List ExtendedStory)
    → last_of_id stories id ≡ none
    → All (λ (t : ExtendedStory). t.story.story_id ≢ id) stories
last_of_id-none id [] h = tt
last_of_id-none id (s ∷ stories) h = elim (Option-cases (last_of_id stories id)) [
  | inl n ↦
      ((str_eq-false_iff s.story.story_id id).0 (ground (arith, n)), last_of_id-none id stories n)
  | inr (t, e) ↦ ground arith
]

last_of_id-none_of :
    (id : String) (stories : List ExtendedStory)
    → All (λ (t : ExtendedStory). t.story.story_id ≢ id) stories
    → last_of_id stories id ≡ none
last_of_id-none_of id [] h = refl
last_of_id-none_of id (s ∷ stories) (n, h) =
    let e = (str_eq-false_iff s.story.story_id id).1 n in
    let ih = last_of_id-none_of id stories h in ground arith

last_sound :
    (id : String) (stories : List ExtendedStory)
    → status_done (last_of_id stories id) ≡ true
    → LastIsDone id stories
last_sound id [] h = cc
last_sound id (s ∷ stories) h = elim (Option-cases (last_of_id stories id)) [
  | inl n ↦ elim (Bool-cases (str_eq s.story.story_id id)) [
    | inl e ↦
        this ((eq_iff s.story.story_id id).0 e) ((is_done_iff s.story.status).0 (ground arith))
          (last_of_id-none id stories n)
    | inr e ↦ ground arith
  ]
  | inr (t, e) ↦ later (last_sound id stories (ground arith))
]

last_complete :
    {id : String} {stories : List ExtendedStory}
    → LastIsDone id stories
    → status_done (last_of_id stories id) ≡ true
last_complete {id} (this {s} {stories} e d h) =
    let none_later = last_of_id-none_of id stories h in
    let named = (eq_iff s.story.story_id id).1 e in
    let finished = (is_done_iff s.story.status).1 d in ground arith
last_complete {id} (later {s} {stories} l) =
    let ih = last_complete l in
    elim (Option-cases (last_of_id stories id)) [ inl n ↦ ground arith | inr (t, e) ↦ ground arith ]

pub deps_done_iff :
    (ctx : AdmissionContext) (story : StoryRecord)
    → (deps_done ctx story ≡ true) ↔ All (λ dep. LastIsDone dep ctx.all_stories) story.depends_on
deps_done_iff ctx story =
    let every = all_iff (λ dep. status_done (last_of_id ctx.all_stories dep)) story.depends_on in
    (
      (λ e. All-map _ _ story.depends_on (λ dep. last_sound dep ctx.all_stories) (every.0 e)),
      (λ h. every.1 (All-map _ _ story.depends_on (λ dep l. last_complete l) h)),
    )

wave_of_iff :
    (waves : List (String × WaveState)) (id : String)
    → (wave_of waves id ≡ true) ↔ FirstIsOpen id waves
wave_of_iff [] id = ((λ h. cc), (λ f. elim f [ ]))
wave_of_iff ((name, state) ∷ waves) id =
    let ih = wave_of_iff waves id in
    elim (Bool-cases (str_eq name id)) [
      | inl e ↦ (first_sound state ((eq_iff name id).0 e) e, first_complete e)
      | inr e ↦
          ((λ h. later ((str_eq-false_iff name id).0 e) (ih.0 (ground arith))), skipped ih.1 e)
    ]
  where
    first_sound :
        (state : WaveState)
        → name ≡ id
        → str_eq name id ≡ true
        → wave_of ((name, state) ∷ waves) id ≡ true
        → FirstIsOpen id ((name, state) ∷ waves)
    first_sound open_wave n e h = this n
    first_sound closed_wave n e h = ground arith

    first_complete :
        {state : WaveState}
        → str_eq name id ≡ true
        → FirstIsOpen id ((name, state) ∷ waves)
        → wave_of ((name, state) ∷ waves) id ≡ true
    first_complete e (this n) = ground arith
    first_complete e (later n f) = absurd (n ((eq_iff name id).0 e))

    skipped :
        {state : WaveState}
        → (FirstIsOpen id waves → wave_of waves id ≡ true)
        → str_eq name id ≡ false
        → FirstIsOpen id ((name, state) ∷ waves)
        → wave_of ((name, state) ∷ waves) id ≡ true
    skipped ih e (this n) = let t = (eq_iff name id).1 n in cc
    skipped ih e (later n f) = let rest = ih f in ground arith

pub wave_open_iff :
    (ctx : AdmissionContext) (wave_id : Option String)
    → (wave_open ctx wave_id ≡ true) ↔ WaveIsOpen ctx.wave_registry wave_id
wave_open_iff ctx none = ((λ _. tt), (λ _. refl))
wave_open_iff ctx (some id) = wave_of_iff (get_or ctx.wave_registry []) id

running_here_iff :
    (epic : String) (s : ExtendedStory)
    → ((in_flight s.story.status && str_eq s.story.epic_id epic) ≡ true) ↔ RunsIn epic s
running_here_iff epic s =
    let running = in_flight_iff s.story.status in
    let here = eq_iff s.story.epic_id epic in
    (
      (λ h. (running.0 (ground arith), here.0 (ground arith))),
      (λ (r, e). let b = running.1 r in let c = here.1 e in ground arith),
    )

pub running_in_epic-Tally :
    (ctx : AdmissionContext) (story : StoryRecord)
    → Tally (RunsIn story.epic_id) ctx.all_stories (running_in_epic ctx story)
running_in_epic-Tally ctx story =
    filter-Tally (RunsIn story.epic_id) _ (running_here_iff story.epic_id) ctx.all_stories

pub Tally-running_in_epic :
    (ctx : AdmissionContext) (story : StoryRecord) {n : ℕ}
    → Tally (RunsIn story.epic_id) ctx.all_stories n
    → running_in_epic ctx story ≡ n
Tally-running_in_epic ctx story t =
    Tally-filter (RunsIn story.epic_id) _ (running_here_iff story.epic_id) t

has_iff : (ids : List String) (id : String) → (has ids id ≡ true) ↔ Memᴰ id ids
has_iff ids id =
    let found = any-true_iff (λ x. str_eq x id) ids in
    (
      (λ h. let (x, m, e) = found.0 h in subst (λ y. Memᴰ y ids) ((eq_iff x id).0 e) m),
      (λ m. found.1 (id, m, eq_refl id)),
    )

none_runs_iff :
    (stories : List ExtendedStory)
    → (ltb 0 (length (filter (λ s. in_flight s.story.status) stories)) ≡ false)
      ↔ All (λ (t : ExtendedStory). t.story.status ≢ in_progress) stories
none_runs_iff [] = ((λ _. tt), (λ _. refl))
none_runs_iff (s ∷ stories) =
    let ih = none_runs_iff stories in
    (
      (λ h. elim (Bool-cases (in_flight s.story.status)) [
        | inl b ↦ ground arith
        | inr b ↦ ((not_in_flight_iff s.story.status).0 b, ih.0 (ground arith))
      ]),
      (λ (n, h).
          let rest = ih.1 h in
          let waiting = (not_in_flight_iff s.story.status).1 n in ground arith),
    )

-- The story need not wait by a plan: it is not in the queue, or no listed story is in progress.
pub must_wait_iff :
    (ctx : AdmissionContext) (s : ExtendedStory) (plan : SpawnPlan)
    → (must_wait ctx s plan ≡ false) ↔ (
        Memᴰ s.story.story_id plan.sequential_queue
        → All (λ (t : ExtendedStory). t.story.status ≢ in_progress) ctx.all_stories)
must_wait_iff ctx s plan =
    let queued = has_iff plan.sequential_queue s.story.story_id in
    let idle_iff = none_runs_iff ctx.all_stories in
    (
      (λ h m. let q = queued.1 m in idle_iff.0 (ground arith)),
      (λ f. elim (Bool-cases (has plan.sequential_queue s.story.story_id)) [
        | inl q ↦ let rest = idle_iff.1 (f (queued.0 q)) in ground arith
        | inr q ↦ ground arith
      ]),
    )
