-- ===== src/GateControl/PolicyChange.antt =====
-- The classification of policy changes (index.ts, lines 262 to 278 and 306 to 378), from the list of
-- changed keys on. The regular expressions on keys and on JSON texts are parameters, as is the JSON
-- text of a value that is neither absent nor a Boolean.
use gateloop.Base.{
  ℕ, String, Bool, true, false, not, ◌&&◌, ◌||◌, List, [], ◌∷◌, ◌≡◌, ◌⊎◌, map, length, ltb,
  if◌then◌else◌,
}
use gateloop.Base.Text.{unit_length}

pub data PolicyValue : Type 0 where
  absent : PolicyValue
  switch : Bool → PolicyValue
  other : String → PolicyValue

pub record PolicyKeyChange : Type 0 where
  pub key : String
  pub before : PolicyValue
  pub after : PolicyValue

-- The tests on a key; all but the first two see it in small letters. `shell_access` is the test on a
-- JSON text.
pub record KeyTests : Type 0 where
  pub guardrail_key : String → Bool
  pub benign_key : String → Bool
  pub real_api : String → Bool
  pub default_deny : String → Bool
  pub kill_switch_key : String → Bool
  pub write_set : String → Bool
  pub network : String → Bool
  pub sandbox : String → Bool
  pub shell_access : String → Bool
  pub to_lower_case : String → String

abbrev pub turned_on : PolicyKeyChange → Bool
turned_on c = elim c.before [ switch b ↦ not b && on c.after | _ ↦ false ]
  where
    on : PolicyValue → Bool
    on (switch b) = b
    on _ = false

abbrev pub turned_off : PolicyKeyChange → Bool
turned_off c = elim c.after [ switch b ↦ not b && on c.before | _ ↦ false ]
  where
    on : PolicyValue → Bool
    on (switch b) = b
    on _ = false

-- `JSON.stringify(value ?? '')`.
abbrev pub json_text : PolicyValue → String
json_text absent = "\"\""
json_text (switch true) = "true"
json_text (switch false) = "false"
json_text (other text) = text

abbrev json_length : PolicyValue → ℕ
json_length v = unit_length (json_text v)

pub data PolicyDecision : Type 0 where
  stop_change apply_and_log : PolicyDecision

pub record PolicyChangeClassification : Type 0 where
  pub decision : PolicyDecision
  pub weakens_guardrail : Bool
  pub changed_keys : List String
  pub stopping_keys : List String

-- Why a guardrail is not weakened, by the first kind of guardrail that its key names (spending, default
-- deny, kill switch, write set, network, sandbox), and whether the change turns it off or on or widens it.
pub data Spared (spending deny kill writes net box off on wide : Bool) : Type 0 where
  spending_off : spending ≡ true → off ≡ true → Spared spending deny kill writes net box off on wide
  deny_on :
      spending ≡ false
      → deny ≡ true
      → on ≡ true
      → Spared spending deny kill writes net box off on wide
  kill_kept :
      spending ≡ false
      → deny ≡ false
      → kill ≡ true
      → off ≡ false
      → Spared spending deny kill writes net box off on wide
  narrowed :
      spending ≡ false
      → deny ≡ false
      → kill ≡ false
      → writes ≡ true
      → wide ≡ false
      → Spared spending deny kill writes net box off on wide
  network_off :
      spending ≡ false
      → deny ≡ false
      → kill ≡ false
      → writes ≡ false
      → net ≡ true
      → off ≡ true
      → Spared spending deny kill writes net box off on wide
  sandbox_kept :
      spending ≡ false
      → deny ≡ false
      → kill ≡ false
      → writes ≡ false
      → net ≡ false
      → box ≡ true
      → off ≡ false
      → Spared spending deny kill writes net box off on wide

abbrev pub weakening : (spending deny kill writes net box off on wide : Bool) → Bool
weakening spending deny kill writes net box off on wide =
    if spending
    then not off
    else if deny
    then not on
    else if kill
    then off
    else if writes
    then wide
    else if net
    then not off
    else if box
    then off
    else true

module _ (tests : KeyTests) where
  abbrev pub gains_shell : PolicyKeyChange → Bool
  gains_shell c =
      tests.shell_access (json_text c.after) && not (tests.shell_access (json_text c.before))

  -- Shell access is gained, or the text does not get shorter.
  abbrev pub widens : PolicyKeyChange → Bool
  widens c = gains_shell c || not (ltb (json_length c.after) (json_length c.before))

  unfoldable pub weakens_guardrail : PolicyKeyChange → Bool
  weakens_guardrail c =
      let k = tests.to_lower_case c.key in
      weakening (tests.real_api k && not (tests.kill_switch_key k)) (tests.default_deny k)
        (tests.kill_switch_key k) (tests.write_set k) (tests.network k) (tests.sandbox k)
        (turned_off c) (turned_on c) (widens c)

  abbrev pub stops : PolicyKeyChange → Bool
  stops c = if tests.guardrail_key c.key then weakens_guardrail c else not (tests.benign_key c.key)

  -- The keys of the reasons to stop.
  abbrev pub stopping : List PolicyKeyChange → List String
  stopping [] = []
  stopping (c ∷ changes) = let rest = stopping changes in if stops c then c.key ∷ rest else rest

  unfoldable pub classify_policy_change : List PolicyKeyChange → PolicyChangeClassification
  classify_policy_change changes =
      let reasons = stopping changes in
      let weakens = ltb 0 (length reasons) in
      record {
        decision = if weakens then stop_change else apply_and_log;
        weakens_guardrail = weakens;
        changed_keys = map (λ c. c.key) changes;
        stopping_keys = reasons;
      }

  abbrev pub SparedChange : PolicyKeyChange → Type 0
  SparedChange c =
      let k = tests.to_lower_case c.key in
      Spared (tests.real_api k && not (tests.kill_switch_key k)) (tests.default_deny k)
        (tests.kill_switch_key k) (tests.write_set k) (tests.network k) (tests.sandbox k)
        (turned_off c) (turned_on c) (widens c)

  abbrev pub Harmless : PolicyKeyChange → Type 0
  Harmless c =
      ((tests.guardrail_key c.key ≡ false) × (tests.benign_key c.key ≡ true))
      ⊎ ((tests.guardrail_key c.key ≡ true) × SparedChange c)
