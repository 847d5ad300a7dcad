-- ===== src/Security/Tools/Gate.antt =====
-- What the gate lets pass, and when it raises.
use oriion.Prelude.{
  Bool-cases, ◌∙◌, inl, inr, ◌≡◌, refl, String, Bool, not, ◌&&◌, some, List, [], ◌∷◌, any, keep_if,
  map, arith, if◌then◌else◌, Result, ok, err, is_ok,
}
use oriion.Security.Tools.{
  DeniedTool, DenyReason, deny_requires_approval, deny_not_in_allowlist, requires_approval,
  in_scope, evaluate_tools, GateError, add_row, with_tools, audit_denied, names_of,
  gate_agent_tools,
}

abbrev pub may_use : List String → String → Bool
may_use tools_allowed name = not (requires_approval name) && in_scope tools_allowed name

abbrev pub reason_of : String → DenyReason
reason_of name = if requires_approval name then deny_requires_approval else deny_not_in_allowlist

-- The decision on a list of names: the permitted ones in their order, and the others in theirs, each
-- with the reason that comes first.
pub evaluate_tools_sorts :
    (names tools_allowed : List String)
    → ((evaluate_tools names tools_allowed).allowed ≡ keep_if (may_use tools_allowed) names)
      × ((evaluate_tools names tools_allowed).denied
          ≡ map
              (λ name. record { name = name; reason = reason_of name })
              (keep_if (λ name. not (may_use tools_allowed name)) names))
unfolding evaluate_tools
evaluate_tools_sorts [] tools_allowed = (refl, refl)
evaluate_tools_sorts (name ∷ names) tools_allowed =
    ground (arith, evaluate_tools_sorts names tools_allowed)

add_row-is_ok :
    (d : DeniedTool) (r : Result GateError (List DeniedTool)) → is_ok (add_row d r) ≡ is_ok r
unfolding add_row
add_row-is_ok d (ok rows) = refl
add_row-is_ok d (err e) = refl

with_tools-is_ok :
    {A : Type 0} (tools : List (String × A)) (r : Result GateError (List DeniedTool))
    → is_ok (with_tools tools r) ≡ is_ok r
unfolding with_tools
with_tools-is_ok tools (ok rows) = refl
with_tools-is_ok tools (err e) = refl

audit_denied-is_ok :
    (write : DeniedTool → Bool) (ds : List DeniedTool)
    → is_ok (audit_denied (some write) ds) ≡ not (any (λ d. not (write d)) ds)
unfolding audit_denied
audit_denied-is_ok write [] = refl
audit_denied-is_ok write (d ∷ ds) = elim (Bool-cases (write d)) [
  | inl y ↦ rw y (add_row-is_ok d (audit_denied (some write) ds) ∙ audit_denied-is_ok write ds)
  | inr n ↦ rw n refl
]

-- With an audit sink, the gate returns tools exactly where no write for a denied tool raises: one
-- audit failure makes the whole gate raise.
pub gate_agent_tools-is_ok :
    {A : Type 0} (candidates : List (String × A)) (tools_allowed : List String)
    (write : DeniedTool → Bool)
    → is_ok (gate_agent_tools candidates tools_allowed (some write))
      ≡ not (any (λ d. not (write d)) (evaluate_tools (names_of candidates) tools_allowed).denied)
unfolding gate_agent_tools
gate_agent_tools-is_ok candidates tools_allowed write =
    let denied = (evaluate_tools (names_of candidates) tools_allowed).denied in
    with_tools-is_ok _ (audit_denied (some write) denied) ∙ audit_denied-is_ok write denied
