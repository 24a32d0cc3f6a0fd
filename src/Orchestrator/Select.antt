-- ===== src/Orchestrator/Select.antt =====
-- Story selection (orchestrator-v0.ts, lines 108 to 136). `locale_compare` is the runtime's
-- `String.prototype.localeCompare`.
pub mod Laws
use gateloop.Base.{
  String, Bool, true, false, not, ◌&&◌, ◌||◌, Option, none, some, List, [], ◌∷◌, map, Ordering,
  compare, str_eq, if◌then◌else◌, any, all, filter,
}
use gateloop.Base.Sort.{or_then, sort}
use gateloop.Orchestrator.State.{RuntimeStory, RuntimeStoryStatus, is_done, is_waiting, is_stuck}

-- `new Set(stories.filter(done).map(id))`, and `has` on it.
abbrev pub done_ids : List RuntimeStory → List String
done_ids stories = map (λ s. s.story_id) (filter (λ s. is_done s.status) stories)

abbrev pub has : List String → String → Bool
has ids id = any (λ x. str_eq x id) ids

abbrev pub is_candidate : List RuntimeStory → RuntimeStory → Bool
is_candidate stories s = is_waiting s.status && all (has (done_ids stories)) s.depends_on

-- `new Map(stories.map(s => [s.story_id, s.status]))` read at a key: the last entry wins.
abbrev pub status_by_id : List RuntimeStory → String → Option RuntimeStoryStatus
status_by_id [] id = none
status_by_id (s ∷ stories) id =
    let later = status_by_id stories id in
    elim later [
      | some status ↦ some status
      | none ↦ if str_eq s.story_id id then some s.status else none
    ]

abbrev dependency_stuck : Option RuntimeStoryStatus → Bool
dependency_stuck none = false
dependency_stuck (some status) = is_stuck status

unfoldable pub has_blocked_or_escalated_dependency : List RuntimeStory → Bool
has_blocked_or_escalated_dependency stories =
    any
      (λ s.
        is_waiting s.status
        && any (λ dep. dependency_stuck (status_by_id stories dep)) s.depends_on)
      stories

abbrev pub first_id : List RuntimeStory → Option String
first_id [] = none
first_id (s ∷ _) = some s.story_id

module _ (locale_compare : String → String → Ordering) where
  abbrev pub story_order : RuntimeStory → RuntimeStory → Ordering
  story_order a b =
      or_then (compare a.priority b.priority)
        (or_then (compare a.order_index b.order_index) (locale_compare a.story_id b.story_id))

  unfoldable pub select_next_runtime_story : List RuntimeStory → Option String
  select_next_runtime_story stories =
      first_id (sort story_order (filter (is_candidate stories) stories))
