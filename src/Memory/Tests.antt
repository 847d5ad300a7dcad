-- ===== src/Memory/Tests.antt =====
-- The theorem about the window, at a small concrete input.
use oriion.Prelude.{
  ℕ, ◌≡◌, refl, String, Option, none, some, List, [], ◌∷◌, map, keep_if, last, ok, err,
}
use oriion.Memory.{ConversationMessage, Db, Sink, of_agent, append, append_all, recent}
use oriion.Memory.Window.{append_all-recent}
use oriion.Memory.Window.Plain.{recent-append_all}

abbrev message : ℕ → ℕ → String → ConversationMessage
message i agent content = record {
  id = i;
  cell_id = 1;
  workspace_id = 7;
  agent_id = agent;
  role = "user";
  content = content;
  token_count = none;
}

abbrev distills : Option Sink
distills = some (record { summarize = λ _. ok "summary"; add = λ _. ok tt })

abbrev fails : Option Sink
fails = some (record { summarize = λ _. err "timeout"; add = λ _. ok tt })

-- Two agents with a window of two: the fifth call's summary fails, and the sixth is not made.
abbrev appends : List (Option Sink × ConversationMessage)
appends =
    (none, message 1 4 "a")
    ∷ (none, message 2 5 "b")
    ∷ (distills, message 3 4 "c")
    ∷ (distills, message 5 4 "d")
    ∷ (fails, message 4 4 "e")
    ∷ (distills, message 6 4 "f")
    ∷ []

abbrev empty : Db
empty = record { history = []; entries = [] }

append_all-recent_example :
    recent 2 1 4 none (append_all 2 appends (empty, [])).0
    ≡ last 2 (last 2 (keep_if (of_agent 1 4) (append_all 2 appends (empty, [])).1))
append_all-recent_example = append_all-recent 2 appends [] 1 4 none

recent_after : map (λ m. m.id) (recent 2 1 4 none (append_all 2 appends (empty, [])).0) ≡ 3 ∷ 5 ∷ []
unfolding recent append_all append
recent_after = refl

abbrev messages : List ConversationMessage
messages = message 1 4 "a" ∷ message 2 5 "b" ∷ message 3 4 "c" ∷ message 4 4 "d" ∷ []

recent-append_all_example :
    recent 2 1 4 (some 1) (append_all 2 (map (λ m. (none, m)) messages) (empty, [])).0
    ≡ last 1 (last 2 (keep_if (of_agent 1 4) messages))
recent-append_all_example =
    recent-append_all 2 messages [] 1 4 (some 1) (refl, (refl, (refl, (refl, tt))))
