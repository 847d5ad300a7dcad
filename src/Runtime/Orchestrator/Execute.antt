-- ===== src/Runtime/Orchestrator/Execute.antt =====
-- execute_agent_task of runtime/orchestrator.py: admission, the agent's run, and the four ways out.
pub mod Ongoing
pub mod Ledger
pub mod Cap
pub mod Stop
pub mod Answered
use oriion.Prelude.{
  ℕ, suc, ◌+◌, ◌-◌, String, Bool, true, false, Option, none, some, List, [], ◌∷◌, ◌++◌, length, sum,
  map, str_eq, if◌then◌else◌, ◌||◌, Result, ok, err,
}
use oriion.Billing.Quota.{QuotaStatus}
use oriion.Tasks.Tree.{TaskStatus, running, succeeded, failed}
use oriion.Runtime.Budget.{RunError, task_cancelled, failure}
use oriion.Runtime.Events.{Payload, at_time, phase, usage, total, error_code}
use oriion.Runtime.Events
use oriion.Runtime.Orchestrator.{
  Agent, TaskRow, World, Run, Exec, then_do, Outcome, succeeded_outcome, failed_outcome,
  cancelled_outcome, budget_outcome, DomainEvent, emitted_started, emitted_cancelled,
  emitted_failed, emitted_completed, publish, read_persisted_status, is_cancelled, say, run_agent,
  DelegateResult,
}

-- What the caller gets where nothing is raised.
pub data Returned (O : Type 0) : Type 0 where
  cancelled_summary : ℕ → Returned O
  output_of : Option O → ℕ → Returned O

-- `getattr(exc, "code", …)`; TaskCancelled has the code of its class.
abbrev pub code_of : RunError → String
code_of task_cancelled = "tasks.cancelled"
code_of (failure code) = code

unfoldable pub outcome_of : String → Outcome
outcome_of code =
    if str_eq code "tasks.budget_exceeded"
      || (str_eq code "llm_gateway.budget_exceeded"
          || (str_eq code "billing.cell_quota_exceeded"
              || str_eq code "billing.daily_quota_exceeded"))
    then budget_outcome
    else failed_outcome

abbrev pub on_row : (TaskRow → TaskRow) → Option TaskRow → Option TaskRow
on_row f none = none
on_row f (some r) = some (f r)

module _ {O : Type 0} (w : World O) where
  -- The start: the event, the gauge, and the row set to running.
  unfoldable pub start : ℕ → List Outcome → Run
  unfolding publish
  start depth before = publish w Events.task_started (at_time w.started) (record {
    row = on_row (λ r. record r { status = running; started_at = some w.started }) w.row;
    accumulated_cost = 0;
    leaf_outputs = [];
    master_input_tokens = 0;
    master_output_tokens = 0;
    memory_input_tokens = 0;
    memory_output_tokens = 0;
    stream = [];
    domain_events = emitted_started ∷ [];
    queue_depth = depth + 1;
    outcomes = before;
    reads = 0;
    calls = 0;
    asked = [];
  })

  warn_if : QuotaStatus → Exec Unit
  warn_if q s = (
    ok tt,
    (if q.soft_warn then publish w Events.task_budget_warning (usage q.period_usage) s else s),
  )

  pub admission_by : Option (Result RunError QuotaStatus) → Exec Unit
  admission_by none s = (ok tt, s)
  admission_by (some (err e)) s = (err e, s)
  admission_by (some (ok q)) s = warn_if q s

  admission : Exec Unit
  admission = admission_by w.quota_admission

  -- `_record_terminal_task_metrics`.
  record_metrics : Outcome → Run → Run
  record_metrics o s = record s { outcomes = s.outcomes ++ o ∷ []; queue_depth = s.queue_depth - 1 }

  emit : DomainEvent → Run → Run
  emit e s = record s { domain_events = s.domain_events ++ e ∷ [] }

  stamp_row : (TaskRow → TaskRow) → Run → Run
  stamp_row f s = record s { row = on_row f s.row }

  -- Both exits of a cancelled task: the status is left alone.
  unfoldable pub exit_cancelled : Run → Result RunError (Returned O) × Run
  unfolding publish record_metrics emit stamp_row
  exit_cancelled s =
      let s₁ =
        stamp_row
          (λ r. record r {
            completed_at = some w.completed;
            total_cost_credits = s.accumulated_cost;
          })
          s in
      let s₂ =
        publish w Events.task_cancelled (total s.accumulated_cost)
          (record_metrics cancelled_outcome s₁) in
      (ok (cancelled_summary s.accumulated_cost), emit emitted_cancelled s₂)

  unfoldable pub exit_failed : Outcome → RunError → Run → Result RunError (Returned O) × Run
  unfolding publish record_metrics emit stamp_row
  exit_failed outcome e s =
      let s₁ =
        stamp_row
          (λ r. record r {
            status = failed;
            completed_at = some w.completed;
            total_cost_credits = s.accumulated_cost;
          })
          s in
      let s₂ =
        publish w Events.task_failed (error_code (code_of e) s.accumulated_cost)
          (record_metrics outcome s₁) in
      (err e, emit emitted_failed s₂)

  -- The rollup, the stamp and the last events of a success.
  unfoldable pub complete : Option O → Run → Result RunError (Returned O) × Run
  unfolding publish record_metrics emit stamp_row
  complete output s =
      let s₁ =
        stamp_row
          (λ r. record r {
            status = succeeded;
            completed_at = some w.completed;
            total_cost_credits = s.accumulated_cost;
            total_input_tokens =
                sum (map (λ (d : DelegateResult). d.input_tokens) s.leaf_outputs)
                + s.master_input_tokens
                + s.memory_input_tokens;
            total_output_tokens =
                sum (map (λ (d : DelegateResult). d.tokens_used) s.leaf_outputs)
                + s.master_output_tokens
                + s.memory_output_tokens;
          })
          s in
      let s₂ =
        publish w Events.task_completed (total s.accumulated_cost)
          (record_metrics succeeded_outcome s₁) in
      (ok (output_of output s.accumulated_cost), emit emitted_completed s₂)

  -- The memory hook: a failure is swallowed, and costs nothing.
  fold_memory : Result RunError (ℕ × ℕ × ℕ) → Run → Run
  unfolding publish
  fold_memory (err e) s = s
  fold_memory (ok (cost, tokens_in, tokens_out)) s =
      publish w Events.task_step_completed (phase "memory_extraction" cost) (record s {
        accumulated_cost = s.accumulated_cost + cost;
        memory_input_tokens = s.memory_input_tokens + tokens_in;
        memory_output_tokens = s.memory_output_tokens + tokens_out;
      })

  pub remember_by : Option (Option O → ℕ → Result RunError (ℕ × ℕ × ℕ)) → Option O → Run → Run
  unfolding fold_memory
  remember_by none output s = s
  remember_by (some hook) output s = fold_memory (hook output (length s.leaf_outputs + 2)) s

  unfoldable pub remember : Option O → Run → Run
  unfolding remember_by
  remember output s = remember_by w.memory_extraction output s

  screened_by : Option O → Result RunError Unit → Run → Result RunError (Returned O) × Run
  screened_by output (err e) s = exit_failed failed_outcome e s
  screened_by output (ok _) s = complete output (remember output s)

  screen_by :
      Option (Option O → Result RunError Unit) → Option O → Run → Result RunError (Returned O) × Run
  unfolding screened_by
  screen_by none output s = complete output (remember output s)
  screen_by (some guard) output s = screened_by output (guard output) s

  unfoldable pub screen : Option O → Run → Result RunError (Returned O) × Run
  unfolding screen_by
  screen output s = screen_by w.output_dlp output s

  -- The re-read of the status before the success is written; it stands outside the `try`, so what it
  -- raises leaves the run as it is.
  recheck :
      Option O → Result RunError (Option TaskStatus) × Run → Result RunError (Returned O) × Run
  recheck output (err e, s) = (err e, s)
  recheck output (ok status, s) =
      if is_cancelled w status then exit_cancelled s else screen output s

  unfoldable pub finish : Result RunError (Option O) × Run → Result RunError (Returned O) × Run
  unfolding recheck read_persisted_status
  finish (err task_cancelled, s) = exit_cancelled s
  finish (err (failure code), s) = exit_failed (outcome_of code) (failure code) s
  finish (ok output, s) = recheck output (read_persisted_status w s)

  -- `depth` and `before`: the gauge and the counted outcomes when the run starts.
  unfoldable pub execute_agent_task :
      Agent O → ℕ → List Outcome → Result RunError (Returned O) × Run
  unfolding admission admission_by warn_if publish run_agent
  execute_agent_task agent depth before =
      finish (then_do admission (λ _. run_agent w agent) (start depth before))
