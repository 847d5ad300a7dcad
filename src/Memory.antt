-- ===== src/Memory.antt =====
-- backend/src/memory: the conversation log of an agent, its window and its summaries
-- (repositories/conversation_repository.py, services/conversation_service.py).
pub mod Window
mod Tests
use oriion.Prelude.{
  ℕ, ◌+◌, ◌-◌, String, Bool, true, false, not, ◌&&◌, Option, none, some, List, [], ◌∷◌, ◌++◌, map,
  keep_if, count_if, length, take, drop, elem, any, ltb, ◌==◌, if◌then◌else◌, Result, ok, err,
}

-- The table's order is the order of `seq`, an identity column.
pub record ConversationMessage : Type 0 where
  pub id : ℕ
  pub cell_id : ℕ
  pub workspace_id : ℕ
  pub agent_id : ℕ
  pub role : String
  pub content : String
  pub token_count : Option ℕ

-- A row of memory.memory_entries that the service adds.
pub record MemoryEntry : Type 0 where
  pub cell_id : ℕ
  pub workspace_id : ℕ
  pub content : String
  pub kind : String
  pub source : String

pub record Db : Type 0 where
  pub history : List ConversationMessage
  pub entries : List MemoryEntry

pub data AppendError : Type 0 where
  duplicate_id : AppendError
  failed_with : String → AppendError

abbrev pub of_agent : ℕ → ℕ → ConversationMessage → Bool
of_agent cell agent m = m.cell_id == cell && m.agent_id == agent

-- ConversationRepository.
abbrev pub count : ℕ → ℕ → List ConversationMessage → ℕ
count cell agent rows = count_if (of_agent cell agent) rows

abbrev pub oldest : ℕ → ℕ → ℕ → List ConversationMessage → List ConversationMessage
oldest cell agent n rows = take n (keep_if (of_agent cell agent) rows)

abbrev pub reverse : {A : Type 0} → List A → List A
reverse [] = []
reverse (x ∷ xs) = reverse xs ++ x ∷ []

abbrev pub recent_rows : ℕ → ℕ → ℕ → List ConversationMessage → List ConversationMessage
recent_rows cell agent limit rows =
    reverse (take limit (reverse (keep_if (of_agent cell agent) rows)))

pub delete_ids : List ℕ → List ConversationMessage → List ConversationMessage
delete_ids [] rows = rows
delete_ids (i ∷ ids) rows = keep_if (λ m. not (elem m.id (i ∷ ids))) rows

-- What a call is given for the overflow: both services, or the messages are only deleted. Each may raise.
pub record Sink : Type 0 where
  pub summarize : List String → Result String String
  pub add : MemoryEntry → Result String Unit

abbrev summary_of : ConversationMessage → String → MemoryEntry
summary_of m summary = record {
  cell_id = m.cell_id;
  workspace_id = m.workspace_id;
  content = summary;
  kind = "conversation_summary";
  source = "summary";
}

-- CellMemoryService.add stores the entry unless the embedding fails.
added : MemoryEntry → Db → Result String Unit → Result AppendError Db
added e db (err x) = err (failed_with x)
added e db (ok _) = ok (record db { entries = db.entries ++ e ∷ [] })

distilled : Sink → ConversationMessage → Db → Result String String → Result AppendError Db
unfolding added
distilled sink m db (err x) = err (failed_with x)
distilled sink m db (ok summary) = added (summary_of m summary) db (sink.add (summary_of m summary))

distill : Option Sink → ConversationMessage → List ConversationMessage → Db → Result AppendError Db
unfolding distilled
distill none m overflow db = ok db
distill (some sink) m overflow db =
    distilled sink m db (sink.summarize (map (λ o. o.content) overflow))

trimmed : List ConversationMessage → Result AppendError Db → Result AppendError Db
unfolding delete_ids
trimmed overflow (err e) = err e
trimmed overflow (ok db) =
    ok (record db { history = delete_ids (map (λ m. m.id) overflow) db.history })

trim : Option Sink → ConversationMessage → List ConversationMessage → Db → Result AppendError Db
unfolding trimmed distill
trim sink m [] db = ok db
trim sink m (o ∷ overflow) db = trimmed (o ∷ overflow) (distill sink m (o ∷ overflow) db)

-- ConversationHistoryService.append, with its window; the insert fails on a used primary key.
unfoldable pub append : ℕ → Option Sink → ConversationMessage → Db → Result AppendError Db
unfolding trim
append window sink m db =
    let db₁ = record db { history = db.history ++ m ∷ [] } in
    let n = count m.cell_id m.agent_id db₁.history in
    if any (λ r. r.id == m.id) db.history
    then err duplicate_id
    else if ltb window n
    then trim sink m (oldest m.cell_id m.agent_id (n - window) db₁.history) db₁
    else ok db₁

-- `limit or window`.
abbrev pub limit_of : ℕ → Option ℕ → ℕ
limit_of window none = window
limit_of window (some limit) = if limit == 0 then window else limit

unfoldable pub recent : ℕ → ℕ → ℕ → Option ℕ → Db → List ConversationMessage
recent window cell agent limit db = recent_rows cell agent (limit_of window limit) db.history

-- What follows a call in its caller: where it raises, the calls after it are not made.
go_on :
    (Db × List ConversationMessage → Db × List ConversationMessage)
    → ConversationMessage
    → Db × List ConversationMessage
    → Result AppendError Db
    → Db × List ConversationMessage
go_on rest m (db, log) (err e) = (db, log)
go_on rest m (db, log) (ok db₁) = rest (db₁, log ++ m ∷ [])

-- A caller's calls up to the first that raises, with the messages whose calls returned: the tables as
-- those left them. What the call that raises has flushed is left to its caller's transaction.
unfoldable pub append_all :
    ℕ
    → List (Option Sink × ConversationMessage)
    → Db × List ConversationMessage
    → Db × List ConversationMessage
unfolding go_on append
append_all window [] s = s
append_all window ((sink, m) ∷ calls) s =
    go_on (append_all window calls) m s (append window sink m s.0)
