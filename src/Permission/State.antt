-- ===== src/Permission/State.antt =====
-- The types of the gateway (index.ts, lines 11 to 58), and what it takes from the runtime.
use gateloop.Base.{String, Bool, Option, List}

pub data PermissionMode : Type 0 where
  plan ask accept_edits bypass_workspace deny_unlisted : PermissionMode

pub data Decision : Type 0 where
  allowed asked denied : Decision

pub record ToolRequest : Type 0 where
  pub mode : PermissionMode
  pub tool : String
  pub command : Option String
  pub cwd : String
  pub target_paths : Option (List String)
  pub is_write : Bool
  pub uses_secret_handle : Bool
  pub opens_network : Bool

pub record StoryContractView : Type 0 where
  pub allowed_write_set : List String
  pub forbidden_actions : List String
  pub allowed_tools : Option (List String)
  pub network_granted : Bool
  pub promotion_allowed : Bool

-- Injected by the harness.
pub record WorkspaceOracle : Type 0 where
  pub resolve_real_path : String → String
  pub is_disposable_workspace : String → Bool
  pub escapes_workspace : String → Bool

pub record PolicyDecision : Type 0 where
  pub decision : Decision
  pub reasons : List String

-- `roles` is an object: its own keys with their entries.
pub record ToolRegistry : Type 0 where
  pub roles : List (String × List String)

-- The tests of the source's six regular expressions, which the runtime's engine answers, and the
-- runtime's `toLowerCase`.
pub record Detectors : Type 0 where
  pub secret_path : String → Bool
  pub secret_exfil_cmd : String → Bool
  pub destructive_cmd : String → Bool
  pub remote_exec_cmd : String → Bool
  pub sudo_cmd : String → Bool
  pub protected_fragment : String → Bool
  pub to_lower_case : String → String
