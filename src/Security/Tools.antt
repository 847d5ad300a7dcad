-- ===== src/Security/Tools.antt =====
-- security/capability.py and runtime/tool_gating.py: the risk of a tool, and the gate over the tools
-- of an agent. A callable is a value of any type; a row of the audit log is its tool and reason.
pub mod Gate
use oriion.Prelude.{
  String, Bool, true, false, not, ◌&&◌, ◌||◌, Option, none, some, List, [], ◌∷◌, ◌++◌, str_eq, any,
  keep_if, if◌then◌else◌, Result, ok, err,
}

pub data RiskLevel : Type 0 where
  read_only internal dangerous : RiskLevel

-- `TOOL_RISK`.
unfoldable pub tool_risk : List (String × RiskLevel)
tool_risk =
    ("web_search", read_only)
    ∷ ("read_url", read_only)
    ∷ ("delegate_task", internal)
    ∷ ("telegram_read_updates", read_only)
    ∷ ("telegram_draft_message", internal)
    ∷ ("yandex_disk_list", read_only)
    ∷ ("yandex_disk_read_file", read_only)
    ∷ ("yandex_disk_draft", internal)
    ∷ ("imap_read_inbox", read_only)
    ∷ ("email_draft", internal)
    ∷ ("send_email", dangerous)
    ∷ ("send_telegram", dangerous)
    ∷ ("transfer_money", dangerous)
    ∷ ("commit_to_prod_branch", dangerous)
    ∷ []

risk_in : List (String × RiskLevel) → String → RiskLevel
risk_in [] name = dangerous
risk_in ((key, risk) ∷ rest) name = if str_eq key name then risk else risk_in rest name

-- A tool that is not in the table is dangerous.
unfoldable pub classify_tool : String → RiskLevel
unfolding risk_in
classify_tool name = risk_in tool_risk name

abbrev pub is_dangerous : RiskLevel → Bool
is_dangerous dangerous = true
is_dangerous _ = false

unfoldable pub requires_approval : String → Bool
requires_approval name = is_dangerous (classify_tool name)

pub data DenyReason : Type 0 where
  deny_requires_approval deny_not_in_allowlist : DenyReason

pub record DeniedTool : Type 0 where
  pub name : String
  pub reason : DenyReason

pub record ToolGateDecision : Type 0 where
  pub allowed : List String
  pub denied : List DeniedTool

-- The names that an allowlist lets pass; an empty one lets all pass.
unfoldable pub in_scope : List String → String → Bool
in_scope [] name = true
in_scope (a ∷ rest) name = any (str_eq name) (a ∷ rest)

allow : String → ToolGateDecision → ToolGateDecision
allow name d = record d { allowed = name ∷ d.allowed }

deny : String → DenyReason → ToolGateDecision → ToolGateDecision
deny name why d = record d { denied = record { name = name; reason = why } ∷ d.denied }

-- The lists are built from the end; the source appends to them from the front.
unfoldable pub evaluate_tools : List String → List String → ToolGateDecision
unfolding allow deny
evaluate_tools [] tools_allowed = record { allowed = []; denied = [] }
evaluate_tools (name ∷ names) tools_allowed =
    let rest = evaluate_tools names tools_allowed in
    if requires_approval name
    then deny name deny_requires_approval rest
    else if in_scope tools_allowed name
    then allow name rest
    else deny name deny_not_in_allowlist rest

-- The audit sink says for a denied tool whether its row is written or the write raises.
abbrev pub Sink : Type 0
Sink = Option (DeniedTool → Bool)

pub data GateError : Type 0 where
  audit_failed : String → GateError

add_row : DeniedTool → Result GateError (List DeniedTool) → Result GateError (List DeniedTool)
add_row d (ok rows) = ok (d ∷ rows)
add_row d (err e) = err e

-- The loop over the denied tools: the rows written, or the exception of the first write that raises.
audit_denied : Sink → List DeniedTool → Result GateError (List DeniedTool)
unfolding add_row
audit_denied none ds = ok []
audit_denied (some write) [] = ok []
audit_denied (some write) (d ∷ ds) =
    let rest = audit_denied (some write) ds in
    if write d then add_row d rest else err (audit_failed d.name)

-- `candidate_tools[name]` for the allowed names: the entries of the map that were allowed.
keep_named {ℓ} : {A : Type ℓ} → List String → List (String × A) → List (String × A)
keep_named names = keep_if (λ entry. any (str_eq entry.0) names)

abbrev pub names_of {ℓ} : {A : Type ℓ} → List (String × A) → List String
names_of [] = []
names_of ((name, _) ∷ rest) = name ∷ names_of rest

with_tools :
    {A : Type 0}
    → List (String × A)
    → Result GateError (List DeniedTool)
    → Result GateError (List (String × A) × List DeniedTool)
with_tools tools (ok rows) = ok (tools, rows)
with_tools tools (err e) = err e

unfoldable pub gate_agent_tools :
    {A : Type 0}
    → List (String × A)
    → List String
    → Sink
    → Result GateError (List (String × A) × List DeniedTool)
unfolding audit_denied keep_named with_tools
gate_agent_tools candidates tools_allowed sink =
    let decision = evaluate_tools (names_of candidates) tools_allowed in
    with_tools (keep_named decision.allowed candidates) (audit_denied sink decision.denied)
