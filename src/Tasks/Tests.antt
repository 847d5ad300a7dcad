-- ===== src/Tasks/Tests.antt =====
-- The theorems about tasks and the outbox, at small concrete inputs.
use oriion.Prelude.{
  All, length, arith, ℕ, ◌-◌, ◌*◌, ◌≤◌, ◌≡◌, refl, Bool, true, false, Option, none, some, List, [],
  ◌∷◌, ◌==◌, if◌then◌else◌,
}
use oriion.Tasks.Tree.{Task, TaskStatus, queued, running, succeeded, descendant_ids}
use oriion.Tasks.Tree.Descent.{Lists, descendant_ids-Lists}
use oriion.Tasks.Service.{
  TaskDb, add_task, add_outbox_event, get, cancel_task, create_task, depth_from_root, parent_id,
  steps_up,
}
use oriion.Tasks.Service.Depth.{Above, stays, goes_up, create_task-Shallow}
use oriion.Tasks.Service.Cancel.{CancelsUnder, cancel_task-CancelsUnder}
use oriion.Tasks.Relay.{OutboxRow, select_batch, publish_all, relay_outbox_batch, relay_runs}
use oriion.Tasks.Relay.Drain.{
  IsRelayed, pending, always, never, relay_outbox_batch-IsRelayed, relay_runs_starve,
  relay_runs_drain,
}

abbrev row : ℕ → Option ℕ → TaskStatus → Task
row id parent status = record {
  id = id;
  cell_id = 1;
  parent_task_id = parent;
  initiated_by_user_id = 1;
  title = "";
  prompt = "";
  status = status;
  completed_at = none;
}

-- 1 has the children 2 and 3, 4 is under 2, and 5 and 6 are each other's parents.
abbrev tree : List Task
tree =
    row 1 none running
    ∷ row 2 (some 1) queued
    ∷ row 3 (some 1) succeeded
    ∷ row 4 (some 2) queued
    ∷ row 5 (some 6) queued
    ∷ row 6 (some 5) queued
    ∷ []

descendant_ids-Lists_example : Lists tree 5 (descendant_ids tree 5)
descendant_ids-Lists_example = descendant_ids-Lists tree 5

abbrev tree_db : TaskDb
tree_db = record { tasks = tree; outbox = [] }

cancel_task-CancelsUnder_example : CancelsUnder 77 1 tree_db (cancel_task 77 1 tree_db)
unfolding get
cancel_task-CancelsUnder_example =
    cancel_task-CancelsUnder 77 1 (row 1 none running) tree_db refl refl

abbrev outbox : List OutboxRow
outbox =
    record { ce_id = 1; published_at = none }
    ∷ record { ce_id = 2; published_at = none }
    ∷ record { ce_id = 3; published_at = some 4 }
    ∷ record { ce_id = 4; published_at = none }
    ∷ []

-- The events 1 and 2 always fail.
abbrev publish_late : ℕ → Bool
publish_late x = if x == 4 then true else false

relay_outbox_batch-IsRelayed_example :
    let (rows', published, sent) = relay_outbox_batch publish_late never 100 9 outbox in
    IsRelayed sent 9 outbox rows'
    × All (λ x. publish_late x ≡ true) sent
    × (published ≡ length sent)
    × (published ≤ 100)
relay_outbox_batch-IsRelayed_example = relay_outbox_batch-IsRelayed publish_late never 100 9 outbox

sent_late : (relay_outbox_batch publish_late never 100 9 outbox).2 ≡ 4 ∷ []
unfolding relay_outbox_batch select_batch publish_all
sent_late = refl

relay_runs_starve_example : relay_runs publish_late never 2 (9 ∷ 10 ∷ 11 ∷ []) outbox ≡ outbox
unfolding select_batch
relay_runs_starve_example =
    relay_runs_starve publish_late never 2 (9 ∷ 10 ∷ 11 ∷ []) outbox (refl, (refl, tt))

relay_runs_drain_example :
    pending (relay_runs always never 2 (9 ∷ 10 ∷ []) outbox) ≤ pending outbox - 2 * 2
relay_runs_drain_example = relay_runs_drain 2 (9 ∷ 10 ∷ []) outbox

-- The new task stands under 4, which stands under 2, which stands under 1.
nine_up : Above (create_task 9 1 1 "t" "p" (some 4) 5 tree_db).1.tasks 9 4
unfolding create_task depth_from_root parent_id get steps_up add_outbox_event add_task
nine_up =
    goes_up 9 4 3 (record (row 9 (some 4) queued) { title = "t"; prompt = "p" }) refl refl
      (goes_up 4 2 2 (row 4 (some 2) queued) refl refl
        (goes_up 2 1 1 (row 2 (some 1) queued) refl refl (stays 1)))

create_task-Shallow_example : 4 ≤ 5
unfolding create_task depth_from_root parent_id get steps_up
create_task-Shallow_example =
    create_task-Shallow 9 1 1 "t" "p" 4 5
      (record (row 9 (some 4) queued) { title = "t"; prompt = "p" }) tree_db (ground arith) refl
      (omega arith) refl 4 nine_up
