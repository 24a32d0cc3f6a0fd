-- ===== src/GateControl/Tests.antt =====
-- Runs on small inputs. The world is the gate's line of policy.yaml, as a Boolean that says whether it
-- is enabled, and the file's text is that value.
use gateloop.Base.{
  ℕ, String, Bool, true, false, Option, none, some, List, [], ◌∷◌, ◌≡◌, refl, ◌≤◌, str_eq, arith,
  inl, inr,
}
use gateloop.GateControl.State.{
  GateReason, Policy, GateIo, run_completed, read_gate, is_gated_allowed, set_gate_enabled,
}
use gateloop.GateControl.Limits.{seed_budget_ledger, attempts, spent_below_ceiling}
use gateloop.GateControl.Run.{GatedRunResult, returned, critical, run_gated, refused_run}
use gateloop.GateControl.PolicyChange.{
  KeyTests, PolicyKeyChange, switch, absent, apply_and_log, weakens_guardrail,
  classify_policy_change,
}
use gateloop.GateControl.Closing.{RunTells, run_gated_closes, Blocked-untouched}

abbrev text_of : Bool → String
text_of true = "true"
text_of false = "false"

abbrev policy : Policy
policy = record {
  exec_enabled = λ s. some (str_eq s "true");
  exec_kill = λ s. some false;
  exec_ci = λ s. none;
  replace_enabled = λ s b. text_of b;
}

abbrev killed_policy : Policy
killed_policy = record policy { exec_kill = λ s. some true }

abbrev io : GateIo Bool
io = record { read = λ w. some (text_of w); write = λ s w. (true, str_eq s "true") }

-- A file that stays as it is.
abbrev stuck_io : GateIo Bool
stuck_io = record { read = λ w. some (text_of w); write = λ s w. (true, w) }

abbrev answer : Bool → Option ℕ × Bool
answer w = (some 7, w)

abbrev completed : GatedRunResult ℕ
completed = record {
  ran = true;
  reason = run_completed;
  result = some 7;
  gate_closed_verified = true;
}

completed_run : run_gated policy io answer none none none false ≡ (returned completed, false)
unfolding run_gated read_gate is_gated_allowed set_gate_enabled
completed_run = refl

stuck_run : run_gated policy stuck_io answer none none none true ≡ (critical, true)
unfolding run_gated read_gate is_gated_allowed set_gate_enabled
stuck_run = refl

run_gated_closes_example : RunTells policy io answer false false completed
run_gated_closes_example =
    run_gated_closes policy io answer none none none false false completed completed_run

killed_reads :
    read_gate killed_policy io false
    ≡ some (record { enabled = false; kill_switch = true; ci_override = false })
unfolding read_gate
killed_reads = refl

Blocked-untouched_example :
    (reason : GateReason) × (run_gated killed_policy io answer none none none false
      ≡ (refused_run reason true, false))
Blocked-untouched_example =
    Blocked-untouched killed_policy io answer none none none false
      (record { enabled = false; kill_switch = true; ci_override = false }) killed_reads
      (inr (inl refl))

abbrev runs : List (ℕ × ℕ)
runs = (5, 4) ∷ (7, 7) ∷ (3, 3) ∷ []

spent_below_ceiling_example : (attempts (seed_budget_ledger 1 (some 10)) runs).spent_usd ≤ 10
spent_below_ceiling_example =
    spent_below_ceiling (seed_budget_ledger 1 (some 10)) 10 runs refl
      ((omega arith), ((omega arith), ((omega arith), tt))) (omega arith)

abbrev usage : List ℕ
usage = 4 ∷ 6 ∷ []

abbrev tests : KeyTests
tests = record {
  guardrail_key = λ k. str_eq k "real_api_calls.kill_switch";
  benign_key = λ k. str_eq k "theme";
  real_api = λ k. str_eq k "real_api_calls.kill_switch";
  default_deny = λ k. false;
  kill_switch_key = λ k. str_eq k "real_api_calls.kill_switch";
  write_set = λ k. false;
  network = λ k. false;
  sandbox = λ k. false;
  shell_access = λ k. false;
  to_lower_case = λ k. k;
}

-- An engaged kill switch that is taken out of the policy is applied and logged.
abbrev removed_switch : List PolicyKeyChange
removed_switch =
    record { key = "real_api_calls.kill_switch"; before = switch true; after = absent } ∷ []

removed_switch_applied : (classify_policy_change tests removed_switch).decision ≡ apply_and_log
unfolding classify_policy_change weakens_guardrail
removed_switch_applied = refl
