-- ===== src/GateControl/State.antt =====
-- Reading and setting the gate (index.ts, lines 24 to 116). `Policy` stands for the three regular
-- expressions on the text of policy.yaml, and `GateIo` for the injected file access on a world: a read
-- that throws is `none`, and a write tells whether it returned, with the world that it leaves.
use mathlib.Core.Option
use gateloop.Base.{
  String, Bool, true, false, not, ◌&&◌, Option, none, some, get_or, str_eq, if◌then◌else◌,
}

pub record GateState : Type 0 where
  pub enabled : Bool
  pub kill_switch : Bool
  pub ci_override : Bool

-- `exec` of each expression, with whether the captured value is 'true', and the replacement of the
-- value of `enabled`.
pub record Policy : Type 0 where
  pub exec_enabled : String → Option Bool
  pub exec_kill : String → Option Bool
  pub exec_ci : String → Option Bool
  pub replace_enabled : String → Bool → String

pub record GateIo (World : Type 0) : Type 0 where
  pub read : World → Option String
  pub write : String → World → Bool × World

pub data GateError : Type 0 where
  read_failed enabled_not_found write_failed : GateError
  not_verified : Bool → Bool → GateError

pub record GateWriteResult : Type 0 where
  pub ok : Bool
  pub verified : Bool
  pub actual : Bool
  pub error : Option GateError

pub data GateReason : Type 0 where
  kill_switch_engaged ci_environment calls_disabled gate_open : GateReason
  ceiling_reached estimate_exceeds within_budget : GateReason
  open_failed : Option GateError → GateReason
  run_completed : GateReason

pub record GateDecision : Type 0 where
  pub allowed : Bool
  pub reason : GateReason

abbrev pub decision : Bool → GateReason → GateDecision
decision allowed reason = record { allowed = allowed; reason = reason }

-- An environment variable counts where it is set and not empty.
abbrev pub is_set : Option String → Bool
is_set none = false
is_set (some v) = not (str_eq v "")

unfoldable pub is_gated_allowed : GateState → Option String → GateDecision
is_gated_allowed state ci =
    if state.kill_switch
    then decision false kill_switch_engaged
    else if state.ci_override && is_set ci
    then decision false ci_environment
    else if not state.enabled
    then decision false calls_disabled
    else decision true gate_open

abbrev pub write_refused : GateError → GateWriteResult
write_refused e = record { ok = false; verified = false; actual = false; error = some e }

abbrev pub same_bool : Bool → Bool → Bool
same_bool true b = b
same_bool false b = not b

module _ {World : Type 0} (policy : Policy) (io : GateIo World) where
  abbrev pub parse_gate : String → GateState
  parse_gate s = record {
    enabled = get_or (policy.exec_enabled s) false;
    kill_switch = get_or (policy.exec_kill s) false;
    ci_override = get_or (policy.exec_ci s) false;
  }

  -- `none` where the read throws.
  unfoldable pub read_gate : World → Option GateState
  read_gate w = Option.map parse_gate (io.read w)

  abbrev pub read_back : Bool → Option GateState → Option GateWriteResult
  read_back enabled none = none
  read_back enabled (some after) =
      if same_bool after.enabled enabled
      then some (record { ok = true; verified = true; actual = after.enabled; error = none })
      else some (record {
        ok = false;
        verified = false;
        actual = after.enabled;
        error = some (not_verified enabled after.enabled);
      })

  abbrev pub after_write : Bool → Bool × World → Option GateWriteResult × World
  after_write enabled (false, w) = (some (write_refused write_failed), w)
  after_write enabled (true, w) = (read_back enabled (read_gate w), w)

  abbrev pub set_in : Bool → Option String → World → Option GateWriteResult × World
  set_in enabled none w = (some (write_refused read_failed), w)
  set_in enabled (some src) w = elim (policy.exec_enabled src) [
    | none ↦ (some (write_refused enabled_not_found), w)
    | some old ↦ after_write enabled (io.write (policy.replace_enabled src enabled) w)
  ]

  -- The result, `none` where the read-back throws, and the world after it.
  unfoldable pub set_gate_enabled : Bool → World → Option GateWriteResult × World
  unfolding read_gate
  set_gate_enabled enabled w = set_in enabled (io.read w) w
