-- ===== src/GateControl/Run.antt =====
-- `runGated` (index.ts, lines 188 to 267). The function that is run changes the world in any way, and
-- returns or throws.
use gateloop.Base.{ℕ, String, Bool, true, false, not, Option, none, some, get_or, if◌then◌else◌}
use gateloop.GateControl.State.{
  GateState, Policy, GateIo, GateWriteResult, GateReason, open_failed, run_completed, GateDecision,
  decision, within_budget, is_gated_allowed, read_gate, set_gate_enabled,
}
use gateloop.GateControl.Limits.{BudgetLedger, can_start}

pub record GatedRunResult (T : Type 0) : Type 0 where
  pub ran : Bool
  pub reason : GateReason
  pub result : Option T
  pub gate_closed_verified : Bool

-- It returns, or throws: the critical error of a close that is not verified, what the function threw,
-- or what a read of the policy threw.
pub data Outcome (T : Type 0) : Type 0 where
  returned : GatedRunResult T → Outcome T
  critical : Outcome T
  rethrown : Outcome T
  read_threw : Outcome T

abbrev pub refused_run : {T : Type 0} → GateReason → Bool → Outcome T
refused_run reason closed =
    returned (record { ran = false; reason = reason; result = none; gate_closed_verified = closed })

abbrev pub budget_decision : Option BudgetLedger → ℕ → GateDecision
budget_decision none estimate = decision true within_budget
budget_decision (some budget) estimate = can_start budget estimate

module _ {World T : Type 0} (policy : Policy) (io : GateIo World)
    (fn : World → Option T × World) where
  abbrev pub after_close : Option T → Option GateWriteResult × World → Outcome T × World
  after_close result (none, w) = (read_threw, w)
  after_close result (some close, w) =
      if close.verified
      then (
        elim result [
          | none ↦ rethrown
          | some r ↦ returned (record {
            ran = true;
            reason = run_completed;
            result = some r;
            gate_closed_verified = true;
          })
        ],
        w,
      )
      else (critical, w)

  abbrev pub run_and_close : Option T × World → Outcome T × World
  run_and_close (result, w) = after_close result (set_gate_enabled policy io false w)

  abbrev pub after_open : Option GateWriteResult × World → Outcome T × World
  after_open (none, w) = (read_threw, w)
  after_open (some open_result, w) =
      if open_result.verified
      then run_and_close (fn w)
      else (refused_run (open_failed open_result.error) (not open_result.actual), w)

  -- The kill switch and CI are looked at as if the gate were enabled.
  abbrev pub with_gate : Option String → World → Option GateState → Outcome T × World
  with_gate ci w none = (read_threw, w)
  with_gate ci w (some pre) =
      let d = is_gated_allowed (record pre { enabled = true }) ci in
      if d.allowed
      then after_open (set_gate_enabled policy io true w)
      else (refused_run d.reason true, w)

  unfoldable pub run_gated :
      Option BudgetLedger → Option ℕ → Option String → World → Outcome T × World
  run_gated budget estimate ci w =
      let d = budget_decision budget (get_or estimate 0) in
      if d.allowed then with_gate ci w (read_gate policy io w) else (refused_run d.reason true, w)
