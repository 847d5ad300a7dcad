-- ===== src/Runtime/Orchestrator/Execute/Ledger.antt =====
-- The events of a run: one that starts it, and exactly one that ends it, the last.
use mathlib.Core.List.{head?}
use oriion.Prelude.{
  ℕ, ◌-◌, String, ◌⊎◌, ◌∙◌, ◌≡◌, refl, ap, true, Option, none, some, List, [], ◌∷◌, ◌++◌, All,
  arith, Result, ok, err, Bool-cases, inl, inr,
}
use oriion.Tasks.Tree.{TaskStatus, succeeded, failed}
use oriion.Runtime.Budget.{RunError, task_cancelled, failure}
use oriion.Runtime.Events.{
  TaskStreamEventType, TaskStreamEvent, Payload, ends_stream, goes_on, is_last, at_time,
}
use oriion.Runtime.Events
use oriion.Runtime.Orchestrator.{
  Agent, TaskRow, World, Run, then_do, Outcome, succeeded_outcome, failed_outcome,
  cancelled_outcome, budget_outcome, DomainEvent, emitted_started, emitted_cancelled,
  emitted_failed, emitted_completed, publish, read_as, read_row, read_persisted_status,
  is_cancelled, run_agent,
}
use oriion.Runtime.Orchestrator.Steps.{then_do-Keeps, Keeps-1}
use oriion.Runtime.Orchestrator.Execute.Ongoing.{
  first_event, IsOngoing, read-Keeps, run_agent-Keeps, remember_by-IsOngoing, admission_by-Keeps,
  start-IsOngoing,
}
use oriion.Runtime.Orchestrator.Execute.{
  Returned, cancelled_summary, output_of, start, admission, record_metrics, emit, stamp_row,
  exit_cancelled, exit_failed, complete, remember, screened_by, screen_by, screen, recheck, finish,
  execute_agent_task, outcome_of, on_row,
}

module _ {O : Type 0} (w : World O) (depth : ℕ) (before : List Outcome) where
  -- The row, where there is one, ends with the status, the time and the cost of the run.
  abbrev pub IsStamped : TaskStatus → Run → Option TaskRow → Type 0
  IsStamped status s none = Unit
  IsStamped status s (some r) =
      (r.status ≡ status)
      × (r.completed_at ≡ some w.completed)
      × (r.total_cost_credits ≡ s.accumulated_cost)

  -- A run that has ended: one event ends its stream, the last; it has left the pool, is counted
  -- once, and has emitted one more domain event.
  pub record IsEnded (type : TaskStreamEventType) (outcome : Outcome) (event : DomainEvent)
      (s : Run) : Type 0 where
    pub body : List TaskStreamEvent
    pub last : TaskStreamEvent
    pub stream_is : s.stream ≡ body ++ last ∷ []
    pub body_goes_on : All (λ e. goes_on e ≡ true) body
    pub begins : head? body ≡ some (first_event w depth before)
    pub last_is : last.event_type ≡ type
    pub left_pool : s.queue_depth ≡ depth
    pub counted : s.outcomes ≡ before ++ outcome ∷ []
    pub emitted : s.domain_events ≡ emitted_started ∷ event ∷ []

  -- A run that is left as it is, in the pool and without a last event, by what a read of its status
  -- raised.
  abbrev pub LeftOpen : RunError → Run → Type 0
  LeftOpen e s = IsOngoing w depth before s × ((n : ℕ) × (w.persisted n ≡ err e))

  -- How a run may end, by what it returns or raises.
  abbrev pub Ends : Result RunError (Returned O) × Run → Type 0
  Ends (ok (cancelled_summary cost), s) =
      IsEnded Events.task_cancelled cancelled_outcome emitted_cancelled s
  Ends (ok (output_of output cost), s) =
      IsEnded Events.task_completed succeeded_outcome emitted_completed s
      × IsStamped succeeded s s.row
  Ends (err e, s) =
      ((IsEnded Events.task_failed failed_outcome emitted_failed s
          ⊎ IsEnded Events.task_failed budget_outcome emitted_failed s)
        × IsStamped failed s s.row)
      ⊎ LeftOpen e s

  ended :
      (type : TaskStreamEventType) (p : Payload) (outcome : Outcome) (event : DomainEvent)
      (s t : Run)
      → IsOngoing w depth before s
      → t.stream ≡ s.stream ++ record { event_type = type; task_id = w.task_id; payload = p } ∷ []
      → t.queue_depth ≡ s.queue_depth - 1
      → t.outcomes ≡ s.outcomes ++ outcome ∷ []
      → t.domain_events ≡ s.domain_events ++ event ∷ []
      → IsEnded type outcome event t
  ended type p outcome event s t i a b c d = record {
    body = s.stream;
    last = record { event_type = type; task_id = w.task_id; payload = p };
    stream_is = a;
    body_goes_on = i.going;
    begins = i.begun;
    last_is = refl;
    left_pool = omega (arith, b, i.in_pool);
    counted = c ∙ ap (λ (xs : List Outcome). xs ++ outcome ∷ []) i.uncounted;
    emitted = d ∙ ap (λ (xs : List DomainEvent). xs ++ event ∷ []) i.silent;
  }

  exit_cancelled-Ends : (s : Run) → IsOngoing w depth before s → Ends (exit_cancelled w s)
  unfolding exit_cancelled publish record_metrics emit stamp_row
  exit_cancelled-Ends s i = ended _ _ _ _ s _ i refl refl refl refl

  failed_row :
      (o : Option TaskRow) (s : Run)
      → IsStamped failed s (
          on_row
            (λ r. record r {
              status = failed;
              completed_at = some w.completed;
              total_cost_credits = s.accumulated_cost;
            })
            o)
  failed_row none s = tt
  failed_row (some r) s = (refl, refl, refl)

  exit_failed-Ends :
      (o : Outcome) (e : RunError) (s : Run)
      → ((o ≡ failed_outcome) ⊎ (o ≡ budget_outcome))
      → IsOngoing w depth before s
      → Ends (exit_failed w o e s)
  unfolding exit_failed publish record_metrics emit stamp_row
  exit_failed-Ends o e s (inl h) i = inl (
    inl (ended _ _ _ _ s _ i refl refl (ap (λ x. s.outcomes ++ x ∷ []) h) refl),
    failed_row s.row s,
  )
  exit_failed-Ends o e s (inr h) i = inl (
    inr (ended _ _ _ _ s _ i refl refl (ap (λ x. s.outcomes ++ x ∷ []) h) refl),
    failed_row s.row s,
  )

  succeeded_row :
      (o : Option TaskRow) (s : Run) (f : TaskRow → TaskRow)
      → ((r : TaskRow)
          → ((f r).status ≡ succeeded)
            × ((f r).completed_at ≡ some w.completed)
            × ((f r).total_cost_credits ≡ s.accumulated_cost))
      → IsStamped succeeded s (on_row f o)
  succeeded_row none s f h = tt
  succeeded_row (some r) s f h = h r

  complete-Ends : (o : Option O) (s : Run) → IsOngoing w depth before s → Ends (complete w o s)
  unfolding complete publish record_metrics emit stamp_row
  complete-Ends o s i =
      (ended _ _ _ _ s _ i refl refl refl refl, succeeded_row s.row s _ (λ r. (refl, refl, refl)))

  remember-Ends :
      (o : Option O) (s : Run) → IsOngoing w depth before s → Ends (complete w o (remember w o s))
  unfolding remember
  remember-Ends o s i =
      complete-Ends o _ (remember_by-IsOngoing w depth before w.memory_extraction o s i)

  screened_by-Ends :
      (o : Option O) (r : Result RunError Unit) (s : Run)
      → IsOngoing w depth before s
      → Ends (screened_by w o r s)
  unfolding screened_by
  screened_by-Ends o (err e) s i = exit_failed-Ends failed_outcome e s (inl refl) i
  screened_by-Ends o (ok u) s i = remember-Ends o s i

  screen_by-Ends :
      (g : Option (Option O → Result RunError Unit)) (o : Option O) (s : Run)
      → IsOngoing w depth before s
      → Ends (screen_by w g o s)
  unfolding screen_by
  screen_by-Ends none o s i = remember-Ends o s i
  screen_by-Ends (some g) o s i = screened_by-Ends o (g o) s i

  -- What the re-read raises comes from the database.
  read_raises :
      (r : Option TaskRow) (s : Run) (e : RunError)
      → (read_row w r s).0 ≡ err e
      → (n : ℕ) × (w.persisted n ≡ err e)
  unfolding read_row read_as
  read_raises none s e h = absurd (ground (arith, h))
  read_raises (some r) s e h = (s.reads, raised (w.persisted s.reads) h)
    where
      raised : (o : Result RunError TaskStatus) → (read_as w r o s).0 ≡ err e → o ≡ err e
      raised (err x) h = ground (arith, h)
      raised (ok x) h = absurd (ground (arith, h))

  recheck-Ends :
      (o : Option O) (r : Result RunError (Option TaskStatus) × Run)
      → ((e : RunError) → r.0 ≡ err e → (n : ℕ) × (w.persisted n ≡ err e))
      → IsOngoing w depth before r.1
      → Ends (recheck w o r)
  unfolding recheck screen
  recheck-Ends o (err e, s) f i = inr (i, f e refl)
  recheck-Ends o (ok status, s) f i = elim (Bool-cases (is_cancelled w status)) [
    | inl y ↦ rw y (exit_cancelled-Ends s i)
    | inr n ↦ rw n (screen_by-Ends w.output_dlp o s i)
  ]

  failed_or_budget :
      (code : String) → (outcome_of code ≡ failed_outcome) ⊎ (outcome_of code ≡ budget_outcome)
  unfolding outcome_of
  failed_or_budget code = ground arith

  finish-Ends :
      (r : Result RunError (Option O) × Run) → IsOngoing w depth before r.1 → Ends (finish w r)
  unfolding finish read_persisted_status
  finish-Ends (err task_cancelled, s) i = exit_cancelled-Ends s i
  finish-Ends (err (failure code), s) i =
      exit_failed-Ends (outcome_of code) (failure code) s (failed_or_budget code) i
  finish-Ends (ok o, s) i =
      recheck-Ends o (read_row w s.row s) (λ e h. read_raises s.row s e h)
        (Keeps-1 (IsOngoing w depth before) (read_row w s.row s) (read-Keeps w depth before s i))

  -- Whatever the agent asks for and catches, and whatever the leaves, hooks and status reads answer or
  -- raise, a run ends in exactly one of four ways, which its result, stream, metrics, domain events and
  -- row agree on. In three of them its stream begins with task.started and holds exactly one event that
  -- ends it, as its last: task.completed where the output is returned, with the row succeeded;
  -- task.failed where an error is raised, with the row failed; task.cancelled where the cancelled summary
  -- is returned. The gauge is back at its value before, one outcome is counted, and the row of a completed
  -- or failed run has the time and the run's accumulated cost. In the fourth, a run raises what a read of
  -- its status raised, and is left open: it has no last event, no outcome and no second domain event, and
  -- the gauge still counts it.
  pub execute_agent_task-Ends : (agent : Agent O) → Ends (execute_agent_task w agent depth before)
  unfolding execute_agent_task admission
  execute_agent_task-Ends agent =
      let m = then_do (admission w) (λ _. run_agent w agent) in
      finish-Ends (m (start w depth before)) (
        Keeps-1 (IsOngoing w depth before) (m (start w depth before)) (
          then_do-Keeps (IsOngoing w depth before) (admission w) (λ _. run_agent w agent)
            (admission_by-Keeps w depth before w.quota_admission)
            (λ _. run_agent-Keeps w depth before agent) (start w depth before)
            (start-IsOngoing w depth before)))
