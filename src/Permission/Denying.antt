-- ===== src/Permission/Denying.antt =====
-- Dangerous requests to `evaluateToolRequest` (index.ts, lines 145 to 158).
use gateloop.Base.{String, Bool, true, false, Option, none, some, map, ◌≡◌, Memᴰ}
use gateloop.Permission.State.{
  Decision, denied, ToolRequest, WorkspaceOracle, PolicyDecision, Detectors,
}
use gateloop.Permission.Pipeline.{command_of, targets}

abbrev is_denied : Decision → Bool
is_denied denied = true
is_denied _ = false

abbrev pub denies : Option PolicyDecision → Bool
denies none = false
denies (some d) = is_denied d.decision

module _ (detect : Detectors) where
  -- The command, or a path that it resolves to, is one of the dangers.
  pub data Dangerous (req : ToolRequest) (oracle : WorkspaceOracle) : Type 0 where
    sudo : detect.sudo_cmd (command_of req) ≡ true → Dangerous req oracle
    destructive : detect.destructive_cmd (command_of req) ≡ true → Dangerous req oracle
    remote_exec : detect.remote_exec_cmd (command_of req) ≡ true → Dangerous req oracle
    exfiltration : detect.secret_exfil_cmd (command_of req) ≡ true → Dangerous req oracle
    secret_target :
        (p : String)
        → Memᴰ p (map oracle.resolve_real_path (targets req))
        → detect.secret_path p ≡ true
        → Dangerous req oracle
    protected_write :
        (p : String)
        → req.is_write ≡ true
        → Memᴰ p (map oracle.resolve_real_path (targets req))
        → detect.protected_fragment p ≡ true
        → Dangerous req oracle
    escaping_write :
        (p : String)
        → req.is_write ≡ true
        → Memᴰ p (map oracle.resolve_real_path (targets req))
        → oracle.escapes_workspace p ≡ true
        → Dangerous req oracle
