-- ===== src/Permission/Allowing.antt =====
-- When the pipeline allows a request.
use gateloop.Base.{
  String, Bool, true, false, Option, none, some, List, map, length, ◌≡◌, ◌≢◌, All, ◌<◌, Memᴰ,
}
use gateloop.Glob.{covered}
use gateloop.Permission.State.{
  plan, ask, bypass_workspace, Decision, allowed, ToolRequest, StoryContractView, WorkspaceOracle,
  PolicyDecision, ToolRegistry, Detectors,
}
use gateloop.Permission.Pipeline.{
  writing_tool, all_covered, role_entry, command_of, targets, forbidden,
}

abbrev is_allowed : Decision → Bool
is_allowed allowed = true
is_allowed _ = false

abbrev pub allows : Option PolicyDecision → Bool
allows none = false
allows (some d) = is_allowed d.decision

-- What the mode and the write set demand of an allowed request.
pub record ModeAllows (req : ToolRequest) (contract : StoryContractView) : Type 0 where
  pub no_secret_handle : req.uses_secret_handle ≡ false
  pub plan_reads : req.mode ≡ plan → (req.is_write ≡ false) × (writing_tool req.tool ≡ false)
  pub ask_reads : req.mode ≡ ask → req.is_write ≡ false
  pub write_inside :
      req.is_write ≡ true
      → req.mode ≢ bypass_workspace
      → All (λ p. covered p contract.allowed_write_set ≡ some true) (targets req)
  pub compiles : req.is_write ≡ true → all_covered (targets req) contract.allowed_write_set ≢ none

-- The role may use the tool: where a registry and a role are given and the role has an entry, the
-- entry lists the tool.
abbrev pub RoleAllows : Option ToolRegistry → Option String → String → Type 0
RoleAllows registry role tool =
    (r : ToolRegistry) (name : String) (tools : List String)
    → registry ≡ some r
    → role ≡ some name
    → name ≢ ""
    → role_entry r.roles name ≡ some tools
    → Memᴰ tool tools

-- An allowed request passes every detector, the oracle, the contract and the mode.
pub record Safe (detect : Detectors) (req : ToolRequest) (contract : StoryContractView)
    (oracle : WorkspaceOracle) (registry : Option ToolRegistry) (role : Option String)
    : Type 0 where
  pub role_allows : RoleAllows registry role req.tool
  pub no_sudo : detect.sudo_cmd (command_of req) ≡ false
  pub not_destructive : detect.destructive_cmd (command_of req) ≡ false
  pub no_remote_exec : detect.remote_exec_cmd (command_of req) ≡ false
  pub no_exfiltration : detect.secret_exfil_cmd (command_of req) ≡ false
  pub no_secret_path :
      All (λ p. detect.secret_path p ≡ false) (map oracle.resolve_real_path (targets req))
  pub not_protected :
      req.is_write ≡ true
      → All (λ p. detect.protected_fragment p ≡ false) (map oracle.resolve_real_path (targets req))
  pub contained :
      req.is_write ≡ true
      → All (λ p. oracle.escapes_workspace p ≡ false) (map oracle.resolve_real_path (targets req))
  pub disposable :
      req.mode ≡ bypass_workspace
      → (0 < length (map oracle.resolve_real_path (targets req)))
        × All
            (λ p. oracle.is_disposable_workspace p ≡ true)
            (map oracle.resolve_real_path (targets req))
  pub network : req.opens_network ≡ true → contract.network_granted ≡ true
  pub not_forbidden : forbidden detect contract (command_of req) ≡ false
  pub mode_allows : ModeAllows req contract
