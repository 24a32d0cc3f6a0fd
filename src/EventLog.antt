-- ===== src/EventLog.antt =====
-- The append-only trace (packages/event-log/src/index.ts, lines 12 to 100). `Payload` is the JSON of a
-- payload, and `hash_event` the SHA-256 of an event's JSON text without its hash field. A file of a
-- run is the list of its events; `event_id` and `timestamp` are what the runtime gives.
pub mod Chain
mod Tests
use mathlib.Core.Option
use gateloop.Base.{
  ℕ, zero, suc, ◌+◌, String, Bool, true, false, Option, none, some, get_or, List, [], ◌∷◌, ◌++◌,
  str_eq, ◌==◌, if◌then◌else◌,
}

module _ (Payload : Type 0) where
  -- A TraceEvent less its hash.
  pub record Body : Type 0 where
    pub event_id : String
    pub run_id : String
    pub seq : ℕ
    pub type : String
    pub timestamp : String
    pub agent_role : Option String
    pub artifact_refs : List String
    pub previous_event_hash : Option String
    pub payload : Payload

  pub record TraceEvent : Type 0 where
    pub body : Body
    pub hash : Option String

  -- The arguments of `appendNextEvent`, and what the runtime gives.
  pub record EventArgs : Type 0 where
    pub run_id : String
    pub type : String
    pub agent_role : Option String
    pub artifact_refs : Option (List String)
    pub payload : Option Payload
    pub event_id : String
    pub timestamp : String

-- What `validateTraceEvent` reports.
pub data ChainError : Type 0 where
  seq_gap : ℕ → ℕ → ChainError
  hash_chain_break hash_mismatch : ℕ → ChainError

abbrev pub same_hash : Option String → Option String → Bool
same_hash none none = true
same_hash (some a) (some b) = str_eq a b
same_hash _ _ = false

abbrev pub report : Bool → ChainError → List ChainError
report true e = []
report false e = e ∷ []

module _ {Payload : Type 0} (hash_event : Body Payload → String) where
  abbrev pub check_event : ℕ → Option String → TraceEvent Payload → List ChainError
  check_event i prev e =
      report (e.body.seq == i) (seq_gap i e.body.seq)
      ++ (report (same_hash e.body.previous_event_hash prev) (hash_chain_break e.body.seq)
          ++ report (same_hash e.hash (some (hash_event e.body))) (hash_mismatch e.body.seq))

  unfoldable pub validate_from : ℕ → Option String → List (TraceEvent Payload) → List ChainError
  validate_from i prev [] = []
  validate_from i prev (e ∷ events) = check_event i prev e ++ validate_from (suc i) e.hash events

  -- The errors; the result is ok where there are none.
  abbrev pub validate_trace_event : List (TraceEvent Payload) → List ChainError
  validate_trace_event events = validate_from 0 none events

  abbrev pub last_event : List (TraceEvent Payload) → Option (TraceEvent Payload)
  last_event [] = none
  last_event (e ∷ []) = some e
  last_event (e ∷ f ∷ events) = last_event (f ∷ events)

  abbrev pub next_seq : Option (TraceEvent Payload) → ℕ
  next_seq none = 0
  next_seq (some e) = e.body.seq + 1

  abbrev pub next_previous : Option (TraceEvent Payload) → Option String
  next_previous none = none
  next_previous (some e) = e.hash

  module _ (redact : Payload → Payload) (empty_payload : Payload) where
    -- `createTraceEvent` at the number and the previous hash that the tail gives.
    abbrev pub create_trace_event : EventArgs Payload → ℕ → Option String → TraceEvent Payload
    create_trace_event args seq previous =
        let body : Body Payload = record {
          event_id = args.event_id;
          run_id = args.run_id;
          seq = seq;
          type = args.type;
          timestamp = args.timestamp;
          agent_role = args.agent_role;
          artifact_refs = get_or args.artifact_refs [];
          previous_event_hash = previous;
          payload = redact (get_or args.payload empty_payload);
        } in
        record { body = body; hash = some (hash_event body) }

    unfoldable pub append_next_event :
        List (TraceEvent Payload) → EventArgs Payload → List (TraceEvent Payload)
    append_next_event existing args =
        let last = last_event existing in
        existing ++ create_trace_event args (next_seq last) (next_previous last) ∷ []
