-- ===== src/EventLog/Tests.antt =====
-- A log of two events, with a hash that writes an event out, and the theorems at it.
use Prim.Native.String as String
use gateloop.Base.{String, none, List, [], ◌∷◌, ◌++◌, ◌≡◌, refl, sym, ap, ◌∙◌, Memᴰ}
use gateloop.EventLog.{
  Body, TraceEvent, EventArgs, validate_from, validate_trace_event, append_next_event,
}
use gateloop.EventLog.Chain.{append-keeps_chain, NoCollision, tamper_evident}

program : Unit {0}
unfolding validate_from append_next_event
program = tt

-- The hash by the type and the payload.
abbrev plain_hash : Body String → String
plain_hash b = String.◌++◌ b.type b.payload

abbrev args : String → EventArgs String
args type = record {
  run_id = "run-1";
  type = type;
  agent_role = none;
  artifact_refs = none;
  payload = none;
  event_id = "id";
  timestamp = "now";
}

abbrev first_log : List (TraceEvent String)
unfolding program
first_log = append_next_event plain_hash (λ p. p) "{}" [] (args "start")

first_valid : validate_trace_event plain_hash first_log ≡ []
unfolding program
first_valid = refl

append-keeps_chain_example :
    (validate_trace_event plain_hash
        (append_next_event plain_hash (λ p. p) "{}" first_log (args "stop"))
      ≡ [])
    × ((e : TraceEvent String) × (append_next_event plain_hash (λ p. p) "{}" first_log (args "stop")
          ≡ first_log ++ e ∷ []))
append-keeps_chain_example =
    append-keeps_chain plain_hash (λ p. p) "{}" first_log (args "stop") first_valid

-- A log of one event.
first_log-NoCollision : NoCollision plain_hash first_log first_log
unfolding first_log
first_log-NoCollision e f (Memᴰ.head p) (Memᴰ.head q) h =
    ap (λ (x : TraceEvent String). x.body) (p ∙ sym q)
first_log-NoCollision e f (Memᴰ.head p) (Memᴰ.tail n) h = elim n [ ]
first_log-NoCollision e f (Memᴰ.tail m) n h = elim m [ ]

tamper_evident_example : first_log ≡ first_log
tamper_evident_example =
    tamper_evident plain_hash first_log first_log first_log-NoCollision first_valid first_valid refl
      refl
