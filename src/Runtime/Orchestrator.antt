-- ===== src/Runtime/Orchestrator.antt =====
-- runtime/orchestrator.py: execute_agent_task. The agent is an interaction tree: what it asks of its
-- deps, and how it goes on with the answer, an exception included. The leaves, hooks and database that
-- it meets are the record World.
pub mod Execute
pub mod Steps
use oriion.Prelude.{
  ℕ, suc, ◌+◌, ◌-◌, ◌*◌, String, Bool, true, false, Option, none, some, List, [], ◌∷◌, ◌++◌, length,
  sum, map, str_eq, if◌then◌else◌, ◌||◌, Result, ok, err,
}
use oriion.Prelude.Int.{ℤ}
use oriion.Billing.Quota.{QuotaStatus}
use oriion.Tasks.Tree.{TaskStatus, running, succeeded, failed, cancelled}
use oriion.Runtime.Budget.{RunError, task_cancelled, failure, check_budget, estimate_step_cost}
use oriion.Runtime.Events.{
  TaskStreamEvent, TaskStreamEventType, Payload, at_time, target, delegated, phase, usage, total,
  error_code,
}
use oriion.Runtime.Events

pub record DelegateResult : Type 0 where
  pub sub_task_id : ℕ
  pub output : String
  pub cost_credits : ℕ
  pub input_tokens : ℕ
  pub tokens_used : ℕ

pub record MasterCallBilling : Type 0 where
  pub phase_name : String
  pub input_tokens : ℕ
  pub output_tokens : ℕ

-- A coordinator or master that runs against the deps: it may delegate, have its own call billed, or
-- ask for a pre-check, and sees what each returns or raises.
pub data Agent (O : Type 0) : Type 0 where
  returns : Option O → Agent O
  raises : RunError → Agent O
  delegates : String → String → (Result RunError DelegateResult → Agent O) → Agent O
  records : MasterCallBilling → (Result RunError ℕ → Agent O) → Agent O
  prechecks : ℕ → (Result RunError Unit → Agent O) → Agent O

-- The mapped row of tasks.tasks.
pub record TaskRow : Type 0 where
  pub status : TaskStatus
  pub started_at : Option ℕ
  pub completed_at : Option ℕ
  pub total_cost_credits : ℕ
  pub total_input_tokens : ℕ
  pub total_output_tokens : ℕ

-- What a run is given: the row that the session finds, what each re-read of its status finds or raises
-- (`session.refresh` asks the database), what each
-- leaf call and master billing returns or raises, the optional hooks, and the clock.
pub record World (O : Type 0) : Type 0 where
  pub task_id : ℕ
  pub row : Option TaskRow
  pub persisted : ℕ → Result RunError TaskStatus
  pub leaf : ℕ → String → String → Result RunError DelegateResult
  pub recorder : Option (ℕ → MasterCallBilling → Result RunError ℕ)
  pub quota_admission : Option (Result RunError QuotaStatus)
  pub output_dlp : Option (Option O → Result RunError Unit)
  pub memory_extraction : Option (Option O → ℕ → Result RunError (ℕ × ℕ × ℕ))
  pub budget_cap : ℕ
  pub started : ℕ
  pub completed : ℕ

-- The label of a run's metrics.
pub data Outcome : Type 0 where
  succeeded_outcome failed_outcome cancelled_outcome budget_outcome : Outcome

pub data DomainEvent : Type 0 where
  emitted_started emitted_cancelled emitted_failed emitted_completed : DomainEvent

-- OrchestratorContext with the row and everything that a run writes to.
pub record Run : Type 0 where
  pub row : Option TaskRow
  pub accumulated_cost : ℕ
  pub leaf_outputs : List DelegateResult
  pub master_input_tokens : ℕ
  pub master_output_tokens : ℕ
  pub memory_input_tokens : ℕ
  pub memory_output_tokens : ℕ
  pub stream : List TaskStreamEvent
  pub domain_events : List DomainEvent
  pub queue_depth : ℕ
  pub outcomes : List Outcome
  pub reads : ℕ
  pub calls : ℕ
  -- the leaf calls that were made, paid or raised, with their sub-prompts
  pub asked : List (String × String)

-- A step of a run: it returns or raises, and changes the run either way.
abbrev pub Exec : Type 0 → Type 0
Exec A = Run → Result RunError A × Run

abbrev pub after : {A B : Type 0} → (A → Exec B) → Result RunError A × Run → Result RunError B × Run
after f (ok a, s) = f a s
after f (err e, s) = (err e, s)

abbrev pub then_do : {A B : Type 0} → Exec A → (A → Exec B) → Exec B
then_do m f s = after f (m s)

module _ {O : Type 0} (w : World O) where
  publish : TaskStreamEventType → Payload → Run → Run
  publish type payload s = record s {
    stream = s.stream ++ record { event_type = type; task_id = w.task_id; payload = payload } ∷ [];
  }

  -- `_read_persisted_status`, on the row of the run; what the refresh raises is raised.
  read_as : TaskRow → Result RunError TaskStatus → Exec (Option TaskStatus)
  read_as r (err e) s = (err e, record s { reads = s.reads + 1 })
  read_as r (ok status) s = (
    ok (some status),
    record s { row = some (record r { status = status }); reads = s.reads + 1 },
  )

  read_row : Option TaskRow → Exec (Option TaskStatus)
  unfolding read_as
  read_row none s = (ok none, s)
  read_row (some r) s = read_as r (w.persisted s.reads) s

  pub read_persisted_status : Exec (Option TaskStatus)
  unfolding read_row
  read_persisted_status s = read_row s.row s

  abbrev pub is_cancelled : Option TaskStatus → Bool
  is_cancelled (some cancelled) = true
  is_cancelled _ = false

  check : ℕ → Exec Unit
  check pending s = (check_budget s.accumulated_cost pending w.budget_cap, s)

  unless_cancelled : Option TaskStatus → Exec Unit
  unless_cancelled status s = (if is_cancelled status then err task_cancelled else ok tt, s)

  stop_if_cancelled : Exec Unit
  unfolding unless_cancelled
  stop_if_cancelled = then_do read_persisted_status unless_cancelled

  say : TaskStreamEventType → Payload → Exec Unit
  say type payload s = (ok tt, publish type payload s)

  call_leaf : String → String → Exec DelegateResult
  call_leaf slug sub_prompt s = (
    w.leaf s.calls slug sub_prompt,
    record s { calls = s.calls + 1; asked = s.asked ++ (slug, sub_prompt) ∷ [] },
  )

  fold_leaf : DelegateResult → Exec Unit
  fold_leaf r s = (
    ok tt,
    record s {
      accumulated_cost = s.accumulated_cost + r.cost_credits;
      leaf_outputs = s.leaf_outputs ++ r ∷ [];
    },
  )

  -- `runner_with_orchestration`.
  runner : String → String → Exec DelegateResult
  runner slug sub_prompt = then_do stop_if_cancelled (λ _.
      then_do (say Events.task_delegation_started (target slug)) (λ _.
        then_do (check (estimate_step_cost slug)) (λ _.
          then_do (call_leaf slug sub_prompt) (λ result. then_do (fold_leaf result) (λ _.
            then_do (check 0) (λ _.
              then_do
                (say Events.task_delegation_completed
                  (delegated slug result.sub_task_id result.cost_credits result.tokens_used))
                (λ _ s. (ok result, s))))))))

  bill : (ℕ → MasterCallBilling → Result RunError ℕ) → MasterCallBilling → Exec ℕ
  bill f billing s = (f s.calls billing, record s { calls = s.calls + 1 })

  fold_master : MasterCallBilling → ℕ → Exec Unit
  fold_master billing cost s = (
    ok tt,
    record s {
      accumulated_cost = s.accumulated_cost + cost;
      master_input_tokens = s.master_input_tokens + billing.input_tokens;
      master_output_tokens = s.master_output_tokens + billing.output_tokens;
    },
  )

  -- `master_call_recorder`, which the deps hold only where there is a recorder.
  master_call_in : Option (ℕ → MasterCallBilling → Result RunError ℕ) → MasterCallBilling → Exec ℕ
  master_call_in none billing s = (ok 0, s)
  master_call_in (some f) billing s =
      then_do (bill f billing)
        (λ cost. then_do (fold_master billing cost) (λ _. then_do (check 0) (λ _.
          then_do (say Events.task_step_completed (phase billing.phase_name cost))
            (λ _ t. (ok cost, t)))))
        s

  master_call : MasterCallBilling → Exec ℕ
  unfolding master_call_in
  master_call billing = master_call_in w.recorder billing

  -- `master_budget_precheck`, likewise.
  precheck_in : Option (ℕ → MasterCallBilling → Result RunError ℕ) → ℕ → Exec Unit
  precheck_in none pending s = (ok tt, s)
  precheck_in (some _) pending s = check pending s

  precheck : ℕ → Exec Unit
  unfolding precheck_in
  precheck pending = precheck_in w.recorder pending

  pub run_agent : Agent O → Exec (Option O)
  run_agent (returns o) s = (ok o, s)
  run_agent (raises e) s = (err e, s)
  run_agent (delegates slug sub_prompt next) s =
      let (r, s') = runner slug sub_prompt s in run_agent (next r) s'
  run_agent (records billing next) s = let (r, s') = master_call billing s in run_agent (next r) s'
  run_agent (prechecks pending next) s = let (r, s') = precheck pending s in run_agent (next r) s'
