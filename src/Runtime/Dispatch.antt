-- ===== src/Runtime/Dispatch.antt =====
-- tasks/routers/tasks.py (run_task) and runtime/queue/actor.py (run_task_dispatch): how a task is sent to
-- a worker, and which worker runs it. The state is what is committed of one task, with how often its
-- orchestration has been started.
pub mod Claim
use oriion.Prelude.{
  ℕ, suc, ◌+◌, ◌≡◌, ◌≢◌, Bool, true, false, not, Option, none, some, List, [], ◌∷◌, ◌==◌, elem,
  keep_if, if◌then◌else◌, Result, ok, err,
}
use oriion.Tasks.Tree.{TaskStatus, queued, running, is_terminal}

pub record Committed : Type 0 where
  pub status : TaskStatus
  pub dispatched_at : Option ℕ
  pub dispatches : ℕ

pub data DispatchError : Type 0 where
  task_not_dispatchable : DispatchError
  dispatch_failed : DispatchError

abbrev pub is_queued : TaskStatus → Bool
is_queued queued = true
is_queued _ = false

-- What becomes of a dispatch: it returns or raises with a status that is then committed, or the worker
-- dies in it and commits nothing.
pub data Dispatched : Type 0 where
  finished : TaskStatus → Dispatched
  raised : TaskStatus → Dispatched
  crashed : Dispatched

-- `POST /run`: the time is committed and a message is sent; the status is left alone.
unfoldable pub run_task : ℕ → Committed → Result DispatchError Unit × Committed
run_task now s =
    if is_queued s.status
    then (ok tt, record s { dispatched_at = some now })
    else (err task_not_dispatchable, s)

commit_outcome : Dispatched → Committed → Result DispatchError Bool × Committed
commit_outcome (finished status) s = (ok true, record s { status = status })
commit_outcome (raised status) s = (err dispatch_failed, record s { status = status })
commit_outcome crashed s = (err dispatch_failed, s)

unfoldable pub claim : Committed → Committed
claim s = record s { status = running; dispatches = s.dispatches + 1 }

-- One delivery, from the load of the task to its last commit.
unfoldable pub run_task_dispatch : Dispatched → Committed → Result DispatchError Bool × Committed
unfolding commit_outcome claim
run_task_dispatch d s = if is_queued s.status then commit_outcome d (claim s) else (ok false, s)

-- What happens to a task whose deliveries come one after the other.
pub data DispatchCall : Type 0 where
  posts : ℕ → DispatchCall
  delivers : Dispatched → DispatchCall

unfoldable pub dispatch_call : DispatchCall → Committed → Committed
dispatch_call (posts now) s = (run_task now s).1
dispatch_call (delivers d) s = (run_task_dispatch d s).1

unfoldable pub dispatch_calls : List DispatchCall → Committed → Committed
unfolding dispatch_call
dispatch_calls [] s = s
dispatch_calls (c ∷ cs) s = dispatch_calls cs (dispatch_call c s)

-- Several workers: those that have loaded the task as queued and not yet committed their claim.
pub record Workers : Type 0 where
  pub committed : Committed
  pub loaded : List ℕ

-- The load takes no lock, so that other steps may come between a worker's load and its claim.
pub data Step : Workers → Workers → Type 0 where
  load_queued :
      (k : ℕ) (s t : Workers)
      → s.committed.status ≡ queued
      → t ≡ record s { loaded = k ∷ s.loaded }
      → Step s t
  load_other : (s : Workers) → s.committed.status ≢ queued → Step s s
  claim_loaded :
      (k : ℕ) (s t : Workers)
      → elem k s.loaded ≡ true
      → t ≡ record { committed = claim s.committed; loaded = keep_if (λ j. not (j == k)) s.loaded }
      → Step s t

pub data Reaches : Workers → Workers → Type 0 where
  stay : (s : Workers) → Reaches s s
  step : (s t u : Workers) → Step s t → Reaches t u → Reaches s u
