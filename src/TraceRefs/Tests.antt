-- ===== src/TraceRefs/Tests.antt =====
-- Runs on the references that the source's comments show.
use gateloop.Base.{arith, none, some, ◌≡◌, refl}
use gateloop.Base.Text.{codes, trim}
use gateloop.TraceRefs.{TraceRef, format_trace_ref, parse_trace_ref, event_id_from_trace_ref}
use gateloop.TraceRefs.Laws.{IsValidRef, parse-format, format-parse}

-- 'trace#evt_4821' and a sha of seven digits.
abbrev with_sha : TraceRef
with_sha = record { event_id = codes "evt_4821"; commit_sha = some (codes "9af3c1d") }

-- The sha of the comment on `formatTraceRef` has six digits, and its reference is not read back.
short_sha_unread :
    parse_trace_ref (
      format_trace_ref (record { event_id = codes "evt_4821"; commit_sha = some (codes "9af3c1") }))
    ≡ none
unfolding parse_trace_ref
short_sha_unread = refl

valid : IsValidRef with_sha
valid = ((λ e. cc), refl, (refl, (omega arith), (omega arith)))

parse-format_example :
    (parse_trace_ref (format_trace_ref with_sha) ≡ some with_sha)
    × (event_id_from_trace_ref (format_trace_ref with_sha) ≡ codes "evt_4821")
parse-format_example = parse-format with_sha valid

spaced_read : parse_trace_ref (codes " trace#evt_4821@9af3c1d") ≡ some with_sha
unfolding parse_trace_ref
spaced_read = refl

format-parse_example :
    IsValidRef with_sha × (format_trace_ref with_sha ≡ trim (codes " trace#evt_4821@9af3c1d"))
format-parse_example = format-parse (codes " trace#evt_4821@9af3c1d") with_sha spaced_read
