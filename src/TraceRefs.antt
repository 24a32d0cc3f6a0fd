-- ===== src/TraceRefs.antt =====
-- References into the trace (packages/shared/src/index.ts, lines 149 to 173, and
-- packages/event-log/src/index.ts, lines 110 to 121). Texts are lists of code points; the two regular
-- expressions are written out.
pub mod Laws
mod Tests
use gateloop.Base.{
  ℕ, Bool, true, false, ◌&&◌, ◌||◌, Option, none, some, get_or, List, [], ◌∷◌, ◌++◌, all, length,
  leb, ltb, ◌==◌, find?, if◌then◌else◌,
}
use gateloop.Base.Text.{codes, trim, same_text}
use gateloop.EventLog.{TraceEvent}

pub record TraceRef : Type 0 where
  pub event_id : List ℕ
  pub commit_sha : Option (List ℕ)

abbrev between : ℕ → ℕ → ℕ → Bool
between low high c = leb low c && leb c high

-- [A-Za-z0-9_.-]
abbrev pub is_id_char : ℕ → Bool
is_id_char c =
    between 48 57 c
    || (between 65 90 c || (between 97 122 c || ((c == 95) || ((c == 46) || (c == 45)))))

-- [0-9a-fA-F]
abbrev pub is_hex : ℕ → Bool
is_hex c = between 48 57 c || (between 65 70 c || between 97 102 c)

-- The text 'trace#'.
abbrev pub trace_prefix : List ℕ
trace_prefix = 116 ∷ 114 ∷ 97 ∷ 99 ∷ 101 ∷ 35 ∷ []

abbrev pub format_trace_ref : TraceRef → List ℕ
format_trace_ref ref = elim ref.commit_sha [
  | none ↦ trace_prefix ++ ref.event_id
  | some [] ↦ trace_prefix ++ ref.event_id
  | some (c ∷ sha) ↦ trace_prefix ++ (ref.event_id ++ (64 ∷ c ∷ sha))
]

abbrev pub strip_prefix : List ℕ → List ℕ → Option (List ℕ)
strip_prefix [] s = some s
strip_prefix (p ∷ ps) [] = none
strip_prefix (p ∷ ps) (c ∷ s) = let rest = strip_prefix ps s in if p == c then rest else none

abbrev onto : ℕ → List ℕ × List ℕ → List ℕ × List ℕ
onto c (id, rest) = (c ∷ id, rest)

-- The longest run of id characters, and what follows it.
abbrev pub split_id : List ℕ → List ℕ × List ℕ
split_id [] = ([], [])
split_id (c ∷ s) = let more = onto c (split_id s) in if is_id_char c then more else ([], c ∷ s)

abbrev pub is_sha : List ℕ → Bool
is_sha sha = all is_hex sha && (leb 7 (length sha) && leb (length sha) 40)

-- The end of the expression, after the id.
abbrev pub match_end : List ℕ → List ℕ → Option TraceRef
match_end id [] = some (record { event_id = id; commit_sha = none })
match_end id (c ∷ sha) =
    if (c == 64) && is_sha sha then some (record { event_id = id; commit_sha = some sha }) else none

abbrev pub match_id : List ℕ × List ℕ → Option TraceRef
match_id ([], rest) = none
match_id (c ∷ id, rest) = match_end (c ∷ id) rest

abbrev pub match_rest : Option (List ℕ) → Option TraceRef
match_rest none = none
match_rest (some s) = match_id (split_id s)

-- The expression at a whole text.
abbrev pub match_ref : List ℕ → Option TraceRef
match_ref s = match_rest (strip_prefix trace_prefix s)

unfoldable pub parse_trace_ref : List ℕ → Option TraceRef
parse_trace_ref s = match_ref (trim s)

abbrev pub id_or : Option TraceRef → List ℕ → List ℕ
id_or none s = s
id_or (some ref) s = ref.event_id

unfoldable pub event_id_from_trace_ref : List ℕ → List ℕ
event_id_from_trace_ref s = id_or (match_ref (trim s)) (trim s)

unfoldable pub resolve_trace_ref :
    {Payload : Type 0} → List ℕ → List (TraceEvent Payload) → Option (TraceEvent Payload)
resolve_trace_ref s events =
    find? (λ e. same_text (codes e.body.event_id) (event_id_from_trace_ref s)) events
