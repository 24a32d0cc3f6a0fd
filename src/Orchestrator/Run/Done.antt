-- ===== src/Orchestrator/Run/Done.antt =====
-- How a story of a run becomes 'done'.
use gateloop.Base.{
  String, true, Option, none, some, List, [], ◌∷◌, Ordering, ◌≡◌, refl, sym, ◌∙◌, ap, ◌⊎◌, inl, inr,
  arith, subst, All, All-map, All-mem, All-of_mem, Memᴰ, get_or,
}
use mathlib.Core.Option.{some-injective}
use gateloop.Orchestrator.State.{
  idle, validate, checkpoint, RuntimeStory, done, OrchestratorV0Action, develop_patch,
  run_validation, write_checkpoint, mark_story_done, retry_develop, stop_run, RuntimeDecision,
  TrackerState, ActionResult,
}
use gateloop.Orchestrator.Select.Laws.{IsDone}
use gateloop.Orchestrator.Decide.{find_story, decide_next_action}
use gateloop.Orchestrator.Decide.Laws.{NamesStory}
use gateloop.Orchestrator.Decide.Cause.{Cause, decide-Cause}
use gateloop.Orchestrator.Advance.{advance_tracker_state, active_id}
use gateloop.Orchestrator.Advance.Laws.{All-patch_story, effect, advance-stories}
use gateloop.Orchestrator.Run.{tick, run}

-- An executed tick: its decision and what executing it returned. A history has the newest first.
pub record Executed : Type 0 where
  pub decision : RuntimeDecision
  pub result : ActionResult

-- The validation of story `id` was run and passed.
pub record Passed (id : String) (e : Executed) : Type 0 where
  pub ran : e.decision.action ≡ run_validation
  pub of_story : e.decision.story_id ≡ some id
  pub verdict : e.result.validation_passed ≡ some true

pub record Did (action : OrchestratorV0Action) (id : String) (e : Executed) : Type 0 where
  pub acted : e.decision.action ≡ action
  pub of_story : e.decision.story_id ≡ some id

-- Somewhere in the history three ticks in a row passed the validation of `id`, wrote its checkpoint
-- and marked it done.
pub data Verified (id : String) : List Executed → Type 0 where
  chain :
      {mark write check : Executed} {past : List Executed}
      → Did mark_story_done id mark
      → Did write_checkpoint id write
      → Passed id check
      → Verified id (mark ∷ write ∷ check ∷ past)
  earlier : {e : Executed} {past : List Executed} → Verified id past → Verified id (e ∷ past)

abbrev pub HeadPassed : Option String → List Executed → Type 0
HeadPassed (some id) (check ∷ past) = Passed id check
HeadPassed _ _ = ⊥

abbrev pub HeadWritten : Option String → List Executed → Type 0
HeadWritten (some id) (write ∷ check ∷ past) = Did write_checkpoint id write × Passed id check
HeadWritten _ _ = ⊥

-- Between ticks: a passed verdict, or the state 'checkpoint', has its cause at the end of the history,
-- and every done story was done at the start (`P`) or is verified.
pub record Accounted (P : String → Type 0) (s : TrackerState) (past : List Executed) : Type 0 where
  pub passed :
      s.state ≡ validate → s.last_validation_passed ≡ some true → HeadPassed s.active_story_id past
  pub written : s.state ≡ checkpoint → HeadWritten s.active_story_id past
  pub settled : All (λ t. t.status ≡ done → P t.story_id ⊎ Verified t.story_id past) s.stories

module _ (locale_compare : String → String → Ordering) where
  pub history : TrackerState → List ActionResult → List Executed → List Executed
  history s [] past = past
  history s (r ∷ rs) past =
      history (tick locale_compare s r) rs
        (record { decision = decide_next_action locale_compare s; result = r } ∷ past)

HeadPassed-HeadWritten :
    (active_id : Option String) (e : Executed) (past : List Executed)
    → HeadPassed active_id past
    → e.decision.action ≡ write_checkpoint
    → e.decision.story_id ≡ active_id
    → HeadWritten active_id (e ∷ past)
HeadPassed-HeadWritten none e past h a i = h
HeadPassed-HeadWritten (some id) e [] h a i = h
HeadPassed-HeadWritten (some id) e (check ∷ past) h a i = (record { acted = a; of_story = i }, h)

HeadWritten-Verified :
    (active_id : Option String) (id : String) (e : Executed) (past : List Executed)
    → HeadWritten active_id past
    → active_id ≡ some id
    → Did mark_story_done id e
    → Verified id (e ∷ past)
HeadWritten-Verified none id e past h a d = absurd h
HeadWritten-Verified (some x) id e [] h a d = absurd h
HeadWritten-Verified (some x) id e (write ∷ []) h a d = absurd h
HeadWritten-Verified (some x) id e (write ∷ check ∷ past) (w, p) a d =
    let same : x ≡ id = some-injective x id a in
    chain d (subst (λ i. Did write_checkpoint i write) same w) (subst (λ i. Passed i check) same p)

-- A tick keeps the account, given the cause of its decision.
module _ (P : String → Type 0) (s : TrackerState) (d : RuntimeDecision) (r : ActionResult)
    (past : List Executed)
    (cause : Cause d.action s.state s.last_validation_passed s.active_story_id d.story_id)
    (acc : Accounted P s past) where
  abbrev now : Executed
  now = record { decision = d; result = r }

  advance-passed :
      let t = advance_tracker_state s d r in
      t.state ≡ validate
      → t.last_validation_passed ≡ some true
      → HeadPassed t.active_story_id (now ∷ past)
  unfolding advance_tracker_state
  advance-passed v p = ground (arith, cause)

  advance-written :
      let t = advance_tracker_state s d r in
      t.state ≡ checkpoint → HeadWritten t.active_story_id (now ∷ past)
  unfolding advance_tracker_state
  advance-written v =
      ground (arith, cause, acc.passed, HeadPassed-HeadWritten s.active_story_id now past)

  advance-Verified :
      (id : String) → d.action ≡ mark_story_done → d.story_id ≡ some id → Verified id (now ∷ past)
  advance-Verified id a i =
      let (at, (named, _)) =
        subst (λ x. Cause x s.state s.last_validation_passed s.active_story_id d.story_id) a
          cause in
      HeadWritten-Verified s.active_story_id id now past (acc.written at) (sym named ∙ i)
        (record { acted = a; of_story = i })

  abbrev Settled : List Executed → RuntimeStory → Type 0
  Settled h t = t.status ≡ done → P t.story_id ⊎ Verified t.story_id h

  Settled-later : (t : RuntimeStory) → Settled past t → Settled (now ∷ past) t
  Settled-later t h e = elim (h e) [ inl p ↦ inl p | inr v ↦ inr (earlier v) ]

  Settled-effect :
      (found : Option RuntimeStory) (t : RuntimeStory)
      → t.story_id ≡ active_id d s
      → Settled past t
      → Settled (now ∷ past) (effect d.action found d r t)
  Settled-effect found t named h = by_action d.action found refl
    where
      verified : d.action ≡ mark_story_done → Verified t.story_id (now ∷ past)
      verified a =
          let (_, (_, names)) =
            subst (λ x. Cause x s.state s.last_validation_passed s.active_story_id d.story_id) a
              cause in
          advance-Verified t.story_id a (of_names d.story_id names named)
        where
          of_names :
              (story_id : Option String)
              → NamesStory story_id
              → t.story_id ≡ get_or story_id (get_or s.active_story_id "")
              → story_id ≡ some t.story_id
          of_names none n e = absurd n
          of_names (some id) n e = ap some (sym e)

      by_action :
          (a : OrchestratorV0Action) (f : Option RuntimeStory)
          → d.action ≡ a
          → Settled (now ∷ past) (effect a f d r t)
      by_action mark_story_done f e k = inr (verified e)
      by_action develop_patch none e k = Settled-later t h k
      by_action develop_patch (some active) e k = Settled-later t h k
      by_action retry_develop f e k = Settled-later t h k
      by_action stop_run f e k = Settled-later t h k
      by_action run_validation f e k = ground arith
      by_action _ f e k = cc

  advance-Settled : All (Settled (now ∷ past)) (advance_tracker_state s d r).stories
  advance-Settled = elim (advance-stories s d r) [
    | inl same ↦
        subst (All (Settled (now ∷ past))) (sym same)
          (All-map (Settled past) (Settled (now ∷ past)) s.stories Settled-later acc.settled)
    | inr (_, patched) ↦ subst (All (Settled (now ∷ past))) (sym patched) (
        All-patch_story (Settled past) (Settled (now ∷ past)) (active_id d s)
          (effect d.action (find_story (active_id d s) s.stories) d r)
          (Settled-effect (find_story (active_id d s) s.stories)) (λ t _. Settled-later t) s.stories
          acc.settled)
  ]

  advance-Accounted : Accounted P (advance_tracker_state s d r) (now ∷ past)
  advance-Accounted = record {
    passed = advance-passed;
    written = advance-written;
    settled = advance-Settled;
  }

module _ (locale_compare : String → String → Ordering) where
  run-Accounted :
      (P : String → Type 0) (s : TrackerState) (rs : List ActionResult) (past : List Executed)
      → Accounted P s past
      → Accounted P (run locale_compare s rs) (history locale_compare s rs past)
  unfolding run history tick
  run-Accounted P s [] past acc = acc
  run-Accounted P s (r ∷ rs) past acc = run-Accounted P (tick locale_compare s r) rs _ (
      advance-Accounted P s (decide_next_action locale_compare s) r past
        (decide-Cause locale_compare s) acc)

  -- From 'idle', whatever the executed actions return: a story that is done at the end of a run was
  -- done at its start, or three ticks in a row of that run passed its validation, wrote its
  -- checkpoint and marked it done.
  pub done-Verified :
      (s : TrackerState) (rs : List ActionResult) (t : RuntimeStory)
      → s.state ≡ idle
      → Memᴰ t (run locale_compare s rs).stories
      → t.status ≡ done
      → IsDone s.stories t.story_id ⊎ Verified t.story_id (history locale_compare s rs [])
  done-Verified s rs t i m e =
      let P : String → Type 0 = IsDone s.stories in
      let start : Accounted P s [] = record {
        passed = λ v. cc;
        written = λ v. cc;
        settled = All-of_mem _ s.stories (λ u mu d. inl (u, mu, refl, d));
      } in
      All-mem _ (run locale_compare s rs).stories (run-Accounted P s rs [] start).settled m e
