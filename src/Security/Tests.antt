-- ===== src/Security/Tests.antt =====
-- The theorems about the gate, at small concrete inputs.
use oriion.Prelude.{ℕ, arith, ◌≡◌, String, Bool, false, not, List, [], ◌∷◌, map, keep_if}
use oriion.Security.Injection.{Finding, span_of, scan}
use oriion.Security.Injection.Spans.{covers}
use oriion.Security.Injection.Mask.{mask, scan-mask}
use oriion.Security.Tools.{DeniedTool, evaluate_tools}
use oriion.Security.Tools.Gate.{may_use, reason_of, evaluate_tools_sorts}

abbrev candidates : List String
candidates = "web_search" ∷ "send_email" ∷ "read_url" ∷ "rm_rf" ∷ []

evaluate_tools_sorts_example :
    ((evaluate_tools candidates ("web_search" ∷ [])).allowed
      ≡ keep_if (may_use ("web_search" ∷ [])) candidates)
    × ((evaluate_tools candidates ("web_search" ∷ [])).denied
        ≡ map
            (λ name. record { name = name; reason = reason_of name })
            (keep_if (λ name. not (may_use ("web_search" ∷ []) name)) candidates))
evaluate_tools_sorts_example = evaluate_tools_sorts candidates ("web_search" ∷ [])

abbrev callables : List (String × ℕ)
callables = ("web_search", 1) ∷ ("send_email", 2) ∷ []

abbrev write_never : DeniedTool → Bool
write_never _ = false

-- Two overlapping matches, in the order of their patterns, and an empty one.
abbrev matches : List Finding
matches =
    ("chat_template_delimiter", (4, 6))
    ∷ ("role_override", (1, 3))
    ∷ ("instruction_override", (2, 3))
    ∷ ("empty", (5, 5))
    ∷ []

abbrev page : List ℕ
page = 1 ∷ 2 ∷ 3 ∷ 4 ∷ 5 ∷ 6 ∷ 7 ∷ []

scan-mask_example :
    (scan (0 ∷ []) matches page).0 ≡ mask (0 ∷ []) (covers (map span_of matches)) 0 false page
scan-mask_example = scan-mask (0 ∷ []) page matches (
  (omega arith, omega arith),
  ((omega arith, omega arith), ((omega arith, omega arith), ((omega arith, omega arith), tt))),
)
