-- ===== src/Permission/Pipeline.antt =====
-- `modeRule` and `evaluateToolRequest` (index.ts, lines 98 to 187). The result is `none` where a glob of
-- the write set does not compile, which throws. The roles of a
-- registry are its own keys; a role named as a property that every object inherits is left out.
use Prim.Native.String as String
use gateloop.Base.{
  String, Bool, true, false, not, ◌&&◌, ◌||◌, Option, none, some, get_or, List, [], ◌∷◌, map, any,
  all, length, ltb, str_eq, if◌then◌else◌,
}
use gateloop.Base.Text.{codes, includes}
use gateloop.Glob.{covered}
use gateloop.Permission.State.{
  PermissionMode, plan, ask, accept_edits, bypass_workspace, deny_unlisted, allowed, asked, denied,
  ToolRequest, StoryContractView, WorkspaceOracle, PolicyDecision, ToolRegistry, Detectors,
}

abbrev pub deny : String → Option PolicyDecision
deny reason = some (record { decision = denied; reasons = reason ∷ [] })

abbrev pub ask_human : String → Option PolicyDecision
ask_human reason = some (record { decision = asked; reasons = reason ∷ [] })

abbrev pub allow : List String → Option PolicyDecision
allow reasons = some (record { decision = allowed; reasons = reasons })

abbrev pub writing_tool : String → Bool
writing_tool tool = str_eq tool "write_file" || (str_eq tool "shell" || str_eq tool "apply_patch")

unfoldable pub mode_rule : PermissionMode → ToolRequest → Bool → Option PolicyDecision
mode_rule plan req in_write_set =
    if writing_tool req.tool || req.is_write then deny "plan mode is read-only" else allow []
mode_rule ask req in_write_set =
    if req.is_write then ask_human "ask mode: confirm mutation" else allow []
mode_rule accept_edits req in_write_set =
    if not req.is_write || in_write_set then allow [] else ask_human "write outside write-set"
mode_rule bypass_workspace req in_write_set = allow ("workspace-confirmed by oracle" ∷ [])
mode_rule deny_unlisted req in_write_set =
    if in_write_set || not req.is_write then allow [] else deny "deny_unlisted: not allow-listed"

-- `paths.every(p => globMatch(writeSet, p))`: the first path outside ends it.
unfoldable pub all_covered : List String → List String → Option Bool
all_covered [] globs = some true
all_covered (p ∷ paths) globs =
    let rest = all_covered paths globs in
    elim (covered p globs) [ none ↦ none | some true ↦ rest | some false ↦ some false ]

abbrev pub role_entry : List (String × List String) → String → Option (List String)
role_entry [] role = none
role_entry ((name, tools) ∷ roles) role =
    let later = role_entry roles role in if str_eq name role then some tools else later

abbrev pub not_listed : Option (List String) → String → Bool
not_listed none tool = false
not_listed (some tools) tool = not (any (λ t. str_eq t tool) tools)

-- The role has an entry that does not list the tool; an empty role counts as none.
abbrev pub not_in_role : Option ToolRegistry → Option String → String → Bool
not_in_role (some registry) (some role) tool =
    if str_eq role "" then false else not_listed (role_entry registry.roles role) tool
not_in_role (some registry) none tool = false
not_in_role none role tool = false

abbrev pub is_bypass : PermissionMode → Bool
is_bypass bypass_workspace = true
is_bypass _ = false

abbrev pub is_ask : PermissionMode → Bool
is_ask ask = true
is_ask _ = false

abbrev pub command_of : ToolRequest → String
command_of req = get_or req.command ""

abbrev pub targets : ToolRequest → List String
targets req = get_or req.target_paths []

-- Step 2.
abbrev pub bypass_risk :
    WorkspaceOracle → PermissionMode → List String → Option PolicyDecision → Option PolicyDecision
bypass_risk oracle mode resolved rest =
    if is_bypass mode
      && not (ltb 0 (length resolved) && all oracle.is_disposable_workspace resolved)
    then deny "bypass_workspace requires a registry-confirmed disposable workspace"
    else rest

-- Step 6, the secret handle, and step 7, once it is known whether the targets are in the write set.
abbrev pub by_write_set : ToolRequest → Option Bool → Option PolicyDecision
by_write_set req none = none
by_write_set req (some in_write_set) =
    if (req.is_write && not in_write_set) && (not (is_ask req.mode) && not (is_bypass req.mode))
    then deny "write outside allowed_write_set"
    else if req.uses_secret_handle
    then ask_human "secret use via scoped handle"
    else mode_rule req.mode req in_write_set

abbrev pub in_write_set : StoryContractView → ToolRequest → Option Bool
in_write_set contract req =
    if req.is_write then all_covered (targets req) contract.allowed_write_set else some true

module _ (detect : Detectors) where
  abbrev pub forbidden : StoryContractView → String → Bool
  forbidden contract cmd =
      any (λ f. includes (codes (detect.to_lower_case f)) (codes (detect.to_lower_case cmd)))
        contract.forbidden_actions

  -- Step 4, the hard denials by the command; `rest` is what follows.
  abbrev pub command_risk : String → Option PolicyDecision → Option PolicyDecision
  command_risk cmd rest =
      if detect.sudo_cmd cmd
      then deny "sudo / privilege escalation"
      else if detect.destructive_cmd cmd
      then deny "destructive command"
      else if detect.remote_exec_cmd cmd
      then deny "remote-exec pipe"
      else if detect.secret_exfil_cmd cmd
      then deny "secret exfiltration command"
      else rest

  -- Steps 5 and 3, by the resolved paths.
  abbrev pub path_risk :
      WorkspaceOracle → Bool → List String → Option PolicyDecision → Option PolicyDecision
  path_risk oracle is_write resolved rest =
      if any detect.secret_path resolved
      then deny "secret/credential path"
      else if is_write && any detect.protected_fragment resolved
      then deny "protected path write"
      else if is_write && any oracle.escapes_workspace resolved
      then deny "symlink/path escapes workspace"
      else rest

  abbrev pub contract_risk :
      StoryContractView → ToolRequest → Option PolicyDecision → Option PolicyDecision
  contract_risk contract req rest =
      if req.opens_network && not contract.network_granted
      then ask_human "network escalation requires approval"
      else if forbidden contract (command_of req)
      then deny "contract forbidden action"
      else rest

  unfoldable pub evaluate_tool_request :
      ToolRequest
      → StoryContractView
      → WorkspaceOracle
      → Option ToolRegistry
      → Option String
      → Option PolicyDecision
  evaluate_tool_request req contract oracle registry role =
      let resolved = map oracle.resolve_real_path (targets req) in
      if not_in_role registry role req.tool
      then deny (String.◌++◌ "tool not in role allowlist: " req.tool)
      else command_risk (command_of req) (
          path_risk oracle req.is_write resolved (
            bypass_risk oracle req.mode resolved
              (contract_risk contract req (by_write_set req (in_write_set contract req)))))
