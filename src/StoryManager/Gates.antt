-- ===== src/StoryManager/Gates.antt =====
-- When a story is admitted.
use gateloop.Base.{
  ℕ, ◌<◌, String, Bool, true, false, not, Option, none, some, [], ◌∷◌, ◌≡◌, ◌↔◌, refl, arith, map,
  leb, Ordering, if◌then◌else◌, lt→not_leb, ◌++◌, All, Memᴰ, ◌≢◌,
}
use gateloop.Base.Tally.{Tally}
use gateloop.Harness.State.{in_progress}
use gateloop.StoryManager.Conditions.{
  LastIsDone, WaveIsOpen, RunsIn, deps_done_iff, wave_open_iff, running_in_epic-Tally,
  Tally-running_in_epic, must_wait_iff,
}
use gateloop.Scheduling.SpawnPlan.{SpawnPlan}
use gateloop.Scheduling.Planned.{spawn_plan-Separate}
use gateloop.StoryManager.Admission.{
  ExtendedStory, AdmissionContext, AdmissionResult, deps_done, wave_open, running_in_epic,
  must_wait, admission_plan, check_admission, candidate_of, admit, refuse, deps_not_done,
  human_hold, wave_closed, wip_limit_exceeded, write_set_overlap, budget_exhausted, deps_done_gate,
  human_hold_gate, wave_open_gate, write_set_overlap_gate, budget_gate, first_gates,
  running_stories,
}

-- What every gate asks for, with the plan that the write-set gate looks at. None of it mentions a
-- test of the code.
pub record MayStart (ctx : AdmissionContext) (max_wip : ℕ) (s : ExtendedStory) (plan : SpawnPlan)
    : Type 0 where
  pub deps : All (λ dep. LastIsDone dep ctx.all_stories) s.story.depends_on
  pub not_held : s.human_hold ≡ false
  pub wave : WaveIsOpen ctx.wave_registry s.wave_id
  pub room : (n : ℕ) × Tally (RunsIn s.story.epic_id) ctx.all_stories n × (n < max_wip)
  pub no_wait :
      Memᴰ s.story.story_id plan.sequential_queue
      → All (λ (t : ExtendedStory). t.story.status ≢ in_progress) ctx.all_stories
  pub budget : ctx.iterations_used < ctx.iteration_budget

abbrev pub admits : Option AdmissionResult → Bool
admits none = false
admits (some r) = r.admitted

-- The chain of gates, by what each of them finds.
gates_iff :
    (s : ExtendedStory) (deps held wave full wait spent : Bool)
    → (admits (
          if not deps
          then some (refuse s deps_not_done (deps_done_gate ∷ []))
          else if held
          then some (refuse s human_hold (deps_done_gate ∷ human_hold_gate ∷ []))
          else if not wave
          then some (refuse s wave_closed (deps_done_gate ∷ human_hold_gate ∷ wave_open_gate ∷ []))
          else if full
          then some (refuse s wip_limit_exceeded first_gates)
          else some (
              if wait
              then refuse s write_set_overlap (first_gates ++ (write_set_overlap_gate ∷ []))
              else if spent
              then refuse s budget_exhausted
                  (first_gates ++ (write_set_overlap_gate ∷ budget_gate ∷ []))
              else admit s (first_gates ++ (write_set_overlap_gate ∷ budget_gate ∷ []))))
        ≡ true)
      ↔ ((deps ≡ true)
          × (held ≡ false)
          × (wave ≡ true)
          × (full ≡ false)
          × (wait ≡ false)
          × (spent ≡ false))
gates_iff s false h w f m b = ((λ e. cc), (λ (d, _, _, _, _, _). cc))
gates_iff s true true w f m b = ((λ e. cc), (λ (_, d, _, _, _, _). cc))
gates_iff s true false false f m b = ((λ e. cc), (λ (_, _, d, _, _, _). cc))
gates_iff s true false true true m b = ((λ e. cc), (λ (_, _, _, d, _, _). cc))
gates_iff s true false true false true b = ((λ e. cc), (λ (_, _, _, _, d, _). cc))
gates_iff s true false true false false true = ((λ e. cc), (λ (_, _, _, _, _, d). cc))
gates_iff s true false true false false false =
    ((λ e. (refl, refl, refl, refl, refl, refl)), (λ _. refl))

not_leb→lt : (a b : ℕ) → leb a b ≡ false → b < a
not_leb→lt a b h = ground arith

module _ (locale_compare : String → String → Ordering) where
  -- The write-set gate always has its plan, and a story is admitted exactly when the last listed story
  -- of each dependency's id is done, the story is not held, it names no wave or the first entry of its
  -- wave in the registry is open, fewer stories of its epic than the limit are in progress, it is not
  -- in the plan's queue or no listed story is in progress, and an iteration is left.
  pub admit_iff :
      (ctx : AdmissionContext) (max_wip : ℕ) (s : ExtendedStory)
      → (plan : SpawnPlan) × (admission_plan locale_compare ctx s ≡ some plan)
        × ((admits (check_admission locale_compare ctx max_wip s) ≡ true)
            ↔ MayStart ctx max_wip s plan)
  unfolding check_admission
  admit_iff ctx max_wip s =
      let (plan, e, _, _) =
        spawn_plan-Separate locale_compare (map candidate_of (s ∷ running_stories ctx)) in
      let gates =
        gates_iff s (deps_done ctx s.story) s.human_hold (wave_open ctx s.wave_id)
          (leb max_wip (running_in_epic ctx s.story)) (must_wait ctx s plan)
          (leb ctx.iteration_budget ctx.iterations_used) in
      (
        plan,
        e,
        (
          (λ h.
              let (d, n, w, r, m, b) = gates.0 (rw e at h) in
              record {
                deps = (deps_done_iff ctx s.story).0 d;
                not_held = n;
                wave = (wave_open_iff ctx s.wave_id).0 w;
                room = (
                  running_in_epic ctx s.story,
                  running_in_epic-Tally ctx s.story,
                  not_leb→lt _ _ r,
                );
                no_wait = (must_wait_iff ctx s plan).0 m;
                budget = not_leb→lt _ _ b;
              }),
          (λ h.
              let (n, tally, room) = h.room in
              let same : running_in_epic ctx s.story ≡ n =
                Tally-running_in_epic ctx s.story tally in
              rw e (
                gates.1 (
                  (deps_done_iff ctx s.story).1 h.deps,
                  h.not_held,
                  (wave_open_iff ctx s.wave_id).1 h.wave,
                  lt→not_leb _ _ (omega (arith, same, room)),
                  (must_wait_iff ctx s plan).1 h.no_wait,
                  lt→not_leb _ _ h.budget,
                ))),
        ),
      )
