-- ===== src/Permission/Tests.antt =====
-- The pipeline at concrete requests.
use gateloop.Base.{String, true, false, none, some, [], ◌∷◌, ◌≡◌, refl, str_eq}
use gateloop.Glob.{covered}
use gateloop.Permission.State.{
  PermissionMode, accept_edits, ToolRequest, StoryContractView, WorkspaceOracle, ToolRegistry,
  Detectors,
}
use gateloop.Permission.Pipeline.{deny, allow, mode_rule, all_covered, evaluate_tool_request}

program : Unit {0}
unfolding mode_rule all_covered evaluate_tool_request covered
program = tt

-- Detectors that know one text each.
abbrev detect : Detectors
detect = record {
  secret_path = λ p. str_eq p "/ws/.env";
  secret_exfil_cmd = λ c. str_eq c "printenv";
  destructive_cmd = λ c. str_eq c "rm -rf /";
  remote_exec_cmd = λ c. false;
  sudo_cmd = λ c. str_eq c "sudo ls";
  protected_fragment = λ p. str_eq p "/ws/.git";
  to_lower_case = λ s. s;
}

abbrev oracle : WorkspaceOracle
oracle = record {
  resolve_real_path = λ p. p;
  is_disposable_workspace = λ p. false;
  escapes_workspace = λ p. str_eq p "/etc/passwd";
}

abbrev contract : StoryContractView
contract = record {
  allowed_write_set = "src/**" ∷ [];
  forbidden_actions = "real_api" ∷ [];
  allowed_tools = none;
  network_granted = false;
  promotion_allowed = false;
}

abbrev registry : ToolRegistry
registry = record { roles = ("developer", "write_file" ∷ "shell" ∷ []) ∷ [] }

abbrev request : PermissionMode → String → String → ToolRequest
request mode command path = record {
  mode = mode;
  tool = "write_file";
  command = some command;
  cwd = "/ws";
  target_paths = some (path ∷ []);
  is_write = true;
  uses_secret_handle = false;
  opens_network = false;
}

allowed_edit :
    evaluate_tool_request detect
      (request accept_edits "" "src/a.ts")
      contract
      oracle
      (some registry)
      (some "developer")
    ≡ allow []
unfolding program
allowed_edit = refl

outside_edit :
    evaluate_tool_request detect (request accept_edits "" "docs/a.md") contract oracle none none
    ≡ deny "write outside allowed_write_set"
unfolding program
outside_edit = refl
