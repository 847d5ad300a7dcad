-- ===== src/Tasks/Service.antt =====
-- tasks/services/task_service.py over the writes of repository.py: creation, cancellation, and the
-- outbox row that each writes in its own transaction.
pub mod Cancel
pub mod Depth
use oriion.Prelude.{
  ℕ, zero, suc, ◌+◌, String, Bool, true, false, not, ◌&&◌, Option, none, some, List, [], ◌∷◌, ◌++◌,
  ◌==◌, leb, elem, find, update_if, if◌then◌else◌, Result, ok, err,
}
use oriion.Tasks.Tree.{Task, queued, cancelled, is_terminal, descendant_ids}

-- A row of tasks.outbox by its event: the type with the ids in its data.
pub data OutboxEvent : Type 0 where
  task_created : ℕ → ℕ → ℕ → Option ℕ → OutboxEvent
  task_cancelled : ℕ → List ℕ → OutboxEvent

pub record TaskDb : Type 0 where
  pub tasks : List Task
  pub outbox : List OutboxEvent

pub data TaskError : Type 0 where
  task_not_found : ℕ → TaskError
  delegation_depth_exceeded : ℕ → TaskError
  search_unfinished : TaskError

unfoldable pub add_task : Task → TaskDb → TaskDb
add_task t db = record db { tasks = db.tasks ++ t ∷ [] }

unfoldable pub add_outbox_event : OutboxEvent → TaskDb → TaskDb
add_outbox_event e db = record db { outbox = db.outbox ++ e ∷ [] }

unfoldable pub get : ℕ → TaskDb → Option Task
get id db = find (λ (t : Task). t.id == id) db.tasks

parent_of : Option Task → Option ℕ
parent_of none = none
parent_of (some t) = t.parent_task_id

-- `parent_id`.
unfoldable pub parent_id : ℕ → TaskDb → Option ℕ
unfolding parent_of
parent_id id db = parent_of (get id db)

climb : (ℕ → ℕ) → Option ℕ → ℕ
climb above none = 0
climb above (some p) = suc (above p)

-- The steps of the walk up, which the safety break stops after ten.
unfoldable pub steps_up : ℕ → ℕ → TaskDb → ℕ
unfolding climb
steps_up zero id db = 0
steps_up (suc k) id db = climb (λ p. steps_up k p db) (parent_id id db)

unfoldable pub depth_from_root : ℕ → TaskDb → ℕ
depth_from_root id db = suc (steps_up 10 id db)

-- A depth check is made where there is a parent.
too_deep : ℕ → Option ℕ → TaskDb → Bool
too_deep max none db = false
too_deep max (some p) db = leb max (depth_from_root p db)

-- `new_id` is the key that the database gives the row.
unfoldable pub create_task :
    ℕ → ℕ → ℕ → String → String → Option ℕ → ℕ → TaskDb → Result TaskError Task × TaskDb
unfolding too_deep
create_task new_id cell user title prompt parent max db =
    let t : Task = record {
      id = new_id;
      cell_id = cell;
      parent_task_id = parent;
      initiated_by_user_id = user;
      title = title;
      prompt = prompt;
      status = queued;
      completed_at = none;
    } in
    if too_deep max parent db
    then (err (delegation_depth_exceeded max), db)
    else (ok t, add_outbox_event (task_created new_id cell user parent) (add_task t db))

-- `cancel_cascade`: only rows that are not terminal.
unfoldable pub cancel_cascade : List ℕ → ℕ → TaskDb → TaskDb
cancel_cascade ids at db = record db {
  tasks =
      update_if (λ (t : Task). elem t.id ids && not (is_terminal t.status))
        (λ t. record t { status = cancelled; completed_at = some at }) db.tasks;
}

cancel_with : ℕ → ℕ → Option (List ℕ) → TaskDb → Result TaskError (List ℕ) × TaskDb
cancel_with now id none db = (err search_unfinished, db)
cancel_with now id (some descendants) db = (
  ok descendants,
  add_outbox_event (task_cancelled id descendants) (cancel_cascade (id ∷ descendants) now db),
)

cancel_found : ℕ → ℕ → Option Task → TaskDb → Result TaskError (List ℕ) × TaskDb
unfolding cancel_with
cancel_found now id none db = (err (task_not_found id), db)
cancel_found now id (some t) db =
    if is_terminal t.status then (ok [], db) else cancel_with now id (descendant_ids db.tasks id) db

unfoldable pub cancel_task : ℕ → ℕ → TaskDb → Result TaskError (List ℕ) × TaskDb
unfolding cancel_found
cancel_task now id db = cancel_found now id (get id db) db
