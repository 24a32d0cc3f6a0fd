-- ===== src/StoryManager/Admission.antt =====
-- `checkAdmission` and `selectAdmissible` (index.ts, lines 5 to 114), without the event that each
-- decision appends to the trace. `none` is a spawn plan that is not found.
use mathlib.Core.Option
use gateloop.Base.{
  ℕ, String, Bool, true, false, not, ◌&&◌, Option, none, some, get_or, List, [], ◌∷◌, ◌++◌, map,
  all, filter, length, leb, ltb, str_eq, Ordering, if◌then◌else◌,
}
use gateloop.Base.Ids.{has}
use gateloop.Harness.State.{StoryRecord}
use gateloop.Harness.Select.{is_done, in_flight}
use gateloop.Scheduling.SpawnPlan.{SpawnCandidate, SpawnPlan, compute_spawn_plan}

pub data WaveState : Type 0 where
  open_wave closed_wave : WaveState

pub record ExtendedStory : Type 0 where
  pub story : StoryRecord
  pub human_hold : Bool
  pub wave_id : Option String
  pub allowed_write_set : Option (List String)

pub record AdmissionContext : Type 0 where
  pub all_stories : List ExtendedStory
  pub wave_registry : Option (List (String × WaveState))
  pub iterations_used : ℕ
  pub iteration_budget : ℕ

pub data DeniedReason : Type 0 where
  deps_not_done human_hold wave_closed wip_limit_exceeded : DeniedReason
  write_set_overlap budget_exhausted : DeniedReason

pub data AdmissionGate : Type 0 where
  deps_done_gate human_hold_gate wave_open_gate wip_limit_gate : AdmissionGate
  write_set_overlap_gate budget_gate : AdmissionGate

pub record AdmissionResult : Type 0 where
  pub story_id : String
  pub admitted : Bool
  pub denied_reason : Option DeniedReason
  pub gates_checked : List AdmissionGate

-- The story map has the last story of each id.
abbrev pub last_of_id : List ExtendedStory → String → Option ExtendedStory
last_of_id [] id = none
last_of_id (s ∷ stories) id = elim (last_of_id stories id) [
  | some t ↦ some t
  | none ↦ if str_eq s.story.story_id id then some s else none
]

abbrev pub status_done : Option ExtendedStory → Bool
status_done none = false
status_done (some s) = is_done s.story.status

abbrev pub deps_done : AdmissionContext → StoryRecord → Bool
deps_done ctx story = all (λ dep. status_done (last_of_id ctx.all_stories dep)) story.depends_on

abbrev pub is_open : WaveState → Bool
is_open open_wave = true
is_open closed_wave = false

abbrev pub wave_of : List (String × WaveState) → String → Bool
wave_of [] id = false
wave_of ((name, state) ∷ waves) id =
    let rest = wave_of waves id in if str_eq name id then is_open state else rest

abbrev pub wave_open : AdmissionContext → Option String → Bool
wave_open ctx none = true
wave_open ctx (some id) = wave_of (get_or ctx.wave_registry []) id

abbrev pub running_stories : AdmissionContext → List ExtendedStory
running_stories ctx = filter (λ s. in_flight s.story.status) ctx.all_stories

abbrev pub running_in_epic : AdmissionContext → StoryRecord → ℕ
running_in_epic ctx story =
    length (
      filter (λ s. in_flight s.story.status && str_eq s.story.epic_id story.epic_id)
        ctx.all_stories)

abbrev pub candidate_of : ExtendedStory → SpawnCandidate
candidate_of s = record {
  story_id = s.story.story_id;
  parallelism_class = s.story.parallelism_class;
  allowed_write_set = get_or s.allowed_write_set [];
}

abbrev pub admit : ExtendedStory → List AdmissionGate → AdmissionResult
admit s gates = record {
  story_id = s.story.story_id;
  admitted = true;
  denied_reason = none;
  gates_checked = gates;
}

abbrev pub refuse : ExtendedStory → DeniedReason → List AdmissionGate → AdmissionResult
refuse s reason gates = record {
  story_id = s.story.story_id;
  admitted = false;
  denied_reason = some reason;
  gates_checked = gates;
}

abbrev pub first_gates : List AdmissionGate
first_gates = deps_done_gate ∷ human_hold_gate ∷ wave_open_gate ∷ wip_limit_gate ∷ []

-- The story has to wait for one that runs.
abbrev pub must_wait : AdmissionContext → ExtendedStory → SpawnPlan → Bool
must_wait ctx s plan =
    has plan.sequential_queue s.story.story_id && ltb 0 (length (running_stories ctx))

-- The gates from the plan on.
abbrev pub by_plan : AdmissionContext → ExtendedStory → SpawnPlan → AdmissionResult
by_plan ctx s plan =
    if must_wait ctx s plan
    then refuse s write_set_overlap (first_gates ++ (write_set_overlap_gate ∷ []))
    else if leb ctx.iteration_budget ctx.iterations_used
    then refuse s budget_exhausted (first_gates ++ (write_set_overlap_gate ∷ budget_gate ∷ []))
    else admit s (first_gates ++ (write_set_overlap_gate ∷ budget_gate ∷ []))

module _ (locale_compare : String → String → Ordering) where
  abbrev pub admission_plan : AdmissionContext → ExtendedStory → Option SpawnPlan
  admission_plan ctx s =
      compute_spawn_plan locale_compare (map candidate_of (s ∷ running_stories ctx))

  unfoldable pub check_admission : AdmissionContext → ℕ → ExtendedStory → Option AdmissionResult
  check_admission ctx max_wip_per_epic s =
      if not (deps_done ctx s.story)
      then some (refuse s deps_not_done (deps_done_gate ∷ []))
      else if s.human_hold
      then some (refuse s DeniedReason.human_hold (deps_done_gate ∷ human_hold_gate ∷ []))
      else if not (wave_open ctx s.wave_id)
      then some (refuse s wave_closed (deps_done_gate ∷ human_hold_gate ∷ wave_open_gate ∷ []))
      else if leb max_wip_per_epic (running_in_epic ctx s.story)
      then some (refuse s wip_limit_exceeded first_gates)
      else Option.map (by_plan ctx s) (admission_plan ctx s)
