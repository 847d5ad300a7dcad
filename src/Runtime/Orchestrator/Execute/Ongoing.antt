-- ===== src/Runtime/Orchestrator/Execute/Ongoing.antt =====
-- What every step of a run keeps until the run ends.
use mathlib.Core.List.{head?}
use oriion.Prelude.{
  ℕ, ◌+◌, String, ◌≡◌, refl, true, false, Option, none, some, List, [], ◌∷◌, ◌++◌, All, arith,
  Result, ok, err, Bool-cases, inl, inr,
}
use oriion.Billing.Quota.{QuotaStatus}
use oriion.Tasks.Tree.{TaskStatus}
use oriion.Runtime.Budget.{RunError, check_budget}
use oriion.Runtime.Events.{
  TaskStreamEventType, TaskStreamEvent, Payload, ends_stream, goes_on, is_last, at_time,
}
use oriion.Runtime.Events
use oriion.Runtime.Orchestrator.{
  Agent, returns, raises, delegates, records, prechecks, TaskRow, World, Run, Outcome, DomainEvent,
  emitted_started, publish, read_as, read_row, read_persisted_status, unless_cancelled,
  stop_if_cancelled, check, say, call_leaf, fold_leaf, runner, bill, fold_master, master_call_in,
  master_call, precheck_in, precheck, run_agent, MasterCallBilling, DelegateResult,
}
use oriion.Runtime.Orchestrator.Steps.{Keeps, then_do-Keeps, Keeps-1, either}
use oriion.Runtime.Orchestrator.Execute.{start, warn_if, admission_by, fold_memory, remember_by}

All-append :
    (es : List TaskStreamEvent) (e : TaskStreamEvent)
    → All (λ e. goes_on e ≡ true) es
    → goes_on e ≡ true
    → All (λ e. goes_on e ≡ true) (es ++ e ∷ [])
All-append [] e h k = (k, tt)
All-append (x ∷ es) e h k = (h.0, All-append es e h.1 k)

head-append :
    (es : List TaskStreamEvent) (e x : TaskStreamEvent)
    → head? es ≡ some x
    → head? (es ++ e ∷ []) ≡ some x
head-append [] e x h = ground arith
head-append (y ∷ es) e x h = h

module _ {O : Type 0} (w : World O) (depth : ℕ) (before : List Outcome) where
  abbrev pub first_event : TaskStreamEvent
  first_event = record {
    event_type = Events.task_started;
    task_id = w.task_id;
    payload = at_time w.started;
  }

  -- What a run has written, before it ends.
  pub record Ongoing (stream : List TaskStreamEvent) (queue_depth : ℕ) (outcomes : List Outcome)
      (events : List DomainEvent) : Type 0 where
    pub going : All (λ e. goes_on e ≡ true) stream
    pub begun : head? stream ≡ some first_event
    pub in_pool : queue_depth ≡ depth + 1
    pub uncounted : outcomes ≡ before
    pub silent : events ≡ emitted_started ∷ []

  abbrev pub IsOngoing : Run → Type 0
  IsOngoing s = Ongoing s.stream s.queue_depth s.outcomes s.domain_events

  publish-IsOngoing :
      (t : TaskStreamEventType) (p : Payload) (s : Run)
      → ends_stream t ≡ false
      → IsOngoing s
      → IsOngoing (publish w t p s)
  unfolding publish
  publish-IsOngoing t p s h i = record {
    going = All-append s.stream _ i.going (ground (arith, h));
    begun = head-append s.stream _ first_event i.begun;
    in_pool = i.in_pool;
    uncounted = i.uncounted;
    silent = i.silent;
  }

  say-Keeps :
      (t : TaskStreamEventType) (p : Payload) → ends_stream t ≡ false → Keeps IsOngoing (say w t p)
  unfolding say
  say-Keeps t p h s i = publish-IsOngoing t p s h i

  check-Keeps : (pending : ℕ) → Keeps IsOngoing (check w pending)
  unfolding check
  check-Keeps pending s i =
      either IsOngoing (check_budget s.accumulated_cost pending w.budget_cap) s i

  read_row-Keeps : (r : Option TaskRow) → Keeps IsOngoing (read_row w r)
  unfolding read_row read_as
  read_row-Keeps none s i = i
  read_row-Keeps (some r) s i = read_as-Keeps (w.persisted s.reads) s i
    where
      read_as-Keeps : (o : Result RunError TaskStatus) → Keeps IsOngoing (read_as w r o)
      read_as-Keeps (err e) s i = i
      read_as-Keeps (ok status) s i = i

  pub read-Keeps : Keeps IsOngoing (read_persisted_status w)
  unfolding read_persisted_status
  read-Keeps s i = read_row-Keeps s.row s i

  stop_if_cancelled-Keeps : Keeps IsOngoing (stop_if_cancelled w)
  unfolding stop_if_cancelled unless_cancelled
  stop_if_cancelled-Keeps =
      then_do-Keeps IsOngoing _ _ read-Keeps (λ status s i. either IsOngoing _ s i)

  call_leaf-Keeps : (slug sub_prompt : String) → Keeps IsOngoing (call_leaf w slug sub_prompt)
  unfolding call_leaf
  call_leaf-Keeps slug sub_prompt s i = either IsOngoing (w.leaf s.calls slug sub_prompt) _ i

  fold_leaf-Keeps : (r : DelegateResult) → Keeps IsOngoing (fold_leaf w r)
  unfolding fold_leaf
  fold_leaf-Keeps r s i = i

  bill-Keeps :
      (f : ℕ → MasterCallBilling → Result RunError ℕ) (b : MasterCallBilling)
      → Keeps IsOngoing (bill w f b)
  unfolding bill
  bill-Keeps f b s i = either IsOngoing (f s.calls b) _ i

  fold_master-Keeps : (b : MasterCallBilling) (c : ℕ) → Keeps IsOngoing (fold_master w b c)
  unfolding fold_master
  fold_master-Keeps b c s i = i

  runner-Keeps : (slug sub_prompt : String) → Keeps IsOngoing (runner w slug sub_prompt)
  unfolding runner
  runner-Keeps slug sub_prompt = then_do-Keeps IsOngoing _ _ stop_if_cancelled-Keeps (λ _.
      then_do-Keeps IsOngoing _ _ (say-Keeps _ _ refl) (λ _.
        then_do-Keeps IsOngoing _ _ (check-Keeps _) (λ _.
          then_do-Keeps IsOngoing _ _ (call_leaf-Keeps slug sub_prompt) (λ r.
            then_do-Keeps IsOngoing _ _ (fold_leaf-Keeps r) (λ _.
              then_do-Keeps IsOngoing _ _ (check-Keeps 0)
                (λ _. then_do-Keeps IsOngoing _ _ (say-Keeps _ _ refl) (λ _ s i. i)))))))

  master_call_in-Keeps :
      (f : Option (ℕ → MasterCallBilling → Result RunError ℕ)) (b : MasterCallBilling)
      → Keeps IsOngoing (master_call_in w f b)
  unfolding master_call_in
  master_call_in-Keeps none b = λ s i. i
  master_call_in-Keeps (some f) b = then_do-Keeps IsOngoing _ _ (bill-Keeps f b) (λ c.
      then_do-Keeps IsOngoing _ _ (fold_master-Keeps b c) (λ _.
        then_do-Keeps IsOngoing _ _ (check-Keeps 0)
          (λ _. then_do-Keeps IsOngoing _ _ (say-Keeps _ _ refl) (λ _ s i. i))))

  precheck_in-Keeps :
      (f : Option (ℕ → MasterCallBilling → Result RunError ℕ)) (n : ℕ)
      → Keeps IsOngoing (precheck_in w f n)
  unfolding precheck_in
  precheck_in-Keeps none n = λ s i. i
  precheck_in-Keeps (some f) n = check-Keeps n

  pub run_agent-Keeps : (agent : Agent O) → Keeps IsOngoing (run_agent w agent)
  unfolding run_agent master_call precheck
  run_agent-Keeps (returns o) s i = i
  run_agent-Keeps (raises e) s i = i
  run_agent-Keeps (delegates slug sub_prompt next) s i =
      run_agent-Keeps (next (runner w slug sub_prompt s).0) (runner w slug sub_prompt s).1
        (Keeps-1 IsOngoing (runner w slug sub_prompt s) (runner-Keeps slug sub_prompt s i))
  run_agent-Keeps (records b next) s i =
      let r = master_call_in w w.recorder b s in
      run_agent-Keeps (next r.0) r.1 (Keeps-1 IsOngoing r (master_call_in-Keeps w.recorder b s i))
  run_agent-Keeps (prechecks n next) s i =
      let r = precheck_in w w.recorder n s in
      run_agent-Keeps (next r.0) r.1 (Keeps-1 IsOngoing r (precheck_in-Keeps w.recorder n s i))

  fold_memory-IsOngoing :
      (r : Result RunError (ℕ × ℕ × ℕ)) (s : Run) → IsOngoing s → IsOngoing (fold_memory w r s)
  unfolding fold_memory
  fold_memory-IsOngoing (err e) s i = i
  fold_memory-IsOngoing (ok (c, a, b)) s i =
      publish-IsOngoing Events.task_step_completed (Events.phase "memory_extraction" c)
        (record s {
          accumulated_cost = s.accumulated_cost + c;
          memory_input_tokens = s.memory_input_tokens + a;
          memory_output_tokens = s.memory_output_tokens + b;
        })
        refl i

  pub remember_by-IsOngoing :
      (h : Option (Option O → ℕ → Result RunError (ℕ × ℕ × ℕ))) (o : Option O) (s : Run)
      → IsOngoing s
      → IsOngoing (remember_by w h o s)
  unfolding remember_by
  remember_by-IsOngoing none o s i = i
  remember_by-IsOngoing (some h) o s i = fold_memory-IsOngoing _ s i

  warn_if-Keeps : (q : QuotaStatus) → Keeps IsOngoing (warn_if w q)
  unfolding warn_if
  warn_if-Keeps q s i = elim (Bool-cases q.soft_warn) [
    | inl y ↦
        rw y (publish-IsOngoing Events.task_budget_warning (Events.usage q.period_usage) s refl i)
    | inr n ↦ rw n i
  ]

  pub admission_by-Keeps :
      (q : Option (Result RunError QuotaStatus)) → Keeps IsOngoing (admission_by w q)
  unfolding admission_by
  admission_by-Keeps none s i = i
  admission_by-Keeps (some (err e)) s i = i
  admission_by-Keeps (some (ok q)) s i = warn_if-Keeps q s i

  pub start-IsOngoing : IsOngoing (start w depth before)
  unfolding start publish
  start-IsOngoing = record {
    going = (refl, tt);
    begun = refl;
    in_pool = refl;
    uncounted = refl;
    silent = refl;
  }
