-- ===== src/Runtime/Orchestrator/Execute/Stop.antt =====
-- A cancellation that the run can read.
use oriion.Prelude.{
  ℕ, ◌≤◌, ◌≡◌, refl, String, true, Option, none, some, is_some, List, arith, Result, ok, err,
}
use oriion.Tasks.Tree.{TaskStatus, cancelled}
use oriion.Runtime.Budget.{RunError, task_cancelled, failure, check_budget}
use oriion.Runtime.Events.{TaskStreamEventType, Payload}
use oriion.Runtime.Orchestrator.{
  Agent, returns, raises, delegates, records, prechecks, TaskRow, World, Run, publish, read_as,
  read_row, read_persisted_status, is_cancelled, unless_cancelled, stop_if_cancelled, check, say,
  runner, bill, fold_master, master_call_in, master_call, precheck_in, precheck, run_agent,
  MasterCallBilling, DelegateResult,
}
use oriion.Runtime.Orchestrator.Steps.{
  Yields, Triple, Keeps, then_do-Keeps, then_do-Triple, Keeps-1, either,
}
use oriion.Runtime.Orchestrator.Execute.{
  Returned, cancelled_summary, output_of, record_metrics, emit, stamp_row, exit_cancelled,
  exit_failed, recheck, finish,
}

-- The run did not return the agent's output.
abbrev pub IsNotCompleted : {O : Type 0} → Result RunError (Returned O) → Type 0
IsNotCompleted (ok (output_of o c)) = ⊥
IsNotCompleted (ok (cancelled_summary c)) = Unit
IsNotCompleted (err e) = Unit

module _ {O : Type 0} (w : World O) (k : ℕ) (seen : (n : ℕ) → k ≤ n → w.persisted n ≡ ok cancelled)
    (outputs : List DelegateResult) (questions : List (String × String)) where
  -- There is a row to read, the reads that are left find it cancelled, and no leaf has been called or
  -- has answered since.
  abbrev Halted : Run → Type 0
  Halted s =
      (is_some s.row ≡ true) × (k ≤ s.reads) × (s.leaf_outputs ≡ outputs) × (s.asked ≡ questions)

  say-Halted : (t : TaskStreamEventType) (p : Payload) → Keeps Halted (say w t p)
  unfolding say publish
  say-Halted t p s i = i

  check-Halted : (n : ℕ) → Keeps Halted (check w n)
  unfolding check
  check-Halted n s i = either Halted (check_budget s.accumulated_cost n w.budget_cap) s i

  read_row-Triple :
      (r : Option TaskRow)
      → is_some r ≡ true
      → Triple Halted (read_row w r) Halted (λ status t. (is_cancelled w status ≡ true) × Halted t)
  unfolding read_row read_as
  read_row-Triple none a s h = absurd (ground (arith, a))
  read_row-Triple (some r) a s (_, b, c, d) =
      rw (seen s.reads b) (refl, (refl, omega (arith, b), c, d))

  read-Triple :
      Triple Halted
        (read_persisted_status w)
        Halted
        (λ status t. (is_cancelled w status ≡ true) × Halted t)
  unfolding read_persisted_status
  read-Triple s h = read_row-Triple s.row h.0 s h

  stop_if_cancelled-Triple : Triple Halted (stop_if_cancelled w) Halted (λ _ _. ⊥)
  unfolding stop_if_cancelled unless_cancelled
  stop_if_cancelled-Triple =
      then_do-Triple Halted Halted (λ status t. (is_cancelled w status ≡ true) × Halted t)
        (λ _ _. ⊥) _ _ read-Triple (λ status s h. rw h.0 h.1)

  runner-Halted : (slug sub_prompt : String) → Keeps Halted (runner w slug sub_prompt)
  unfolding runner
  runner-Halted slug sub_prompt =
      then_do-Triple Halted Halted (λ _ _. ⊥) (λ _. Halted) _ _ stop_if_cancelled-Triple
        (λ _ s bottom. absurd bottom)

  bill-Halted :
      (f : ℕ → MasterCallBilling → Result RunError ℕ) (b : MasterCallBilling)
      → Keeps Halted (bill w f b)
  unfolding bill
  bill-Halted f b s i = either Halted (f s.calls b) _ i

  fold_master-Halted : (b : MasterCallBilling) (c : ℕ) → Keeps Halted (fold_master w b c)
  unfolding fold_master
  fold_master-Halted b c s i = i

  master_call_in-Halted :
      (f : Option (ℕ → MasterCallBilling → Result RunError ℕ)) (b : MasterCallBilling)
      → Keeps Halted (master_call_in w f b)
  unfolding master_call_in
  master_call_in-Halted none b = λ s i. i
  master_call_in-Halted (some f) b = then_do-Keeps Halted _ _ (bill-Halted f b) (λ c.
      then_do-Keeps Halted _ _ (fold_master-Halted b c) (λ _.
        then_do-Keeps Halted _ _ (check-Halted 0)
          (λ _. then_do-Keeps Halted _ _ (say-Halted _ _) (λ _ s i. i))))

  precheck_in-Halted :
      (f : Option (ℕ → MasterCallBilling → Result RunError ℕ)) (n : ℕ)
      → Keeps Halted (precheck_in w f n)
  unfolding precheck_in
  precheck_in-Halted none n = λ s i. i
  precheck_in-Halted (some f) n = check-Halted n

  run_agent-Halted : (agent : Agent O) → Keeps Halted (run_agent w agent)
  unfolding run_agent master_call precheck
  run_agent-Halted (returns o) s i = i
  run_agent-Halted (raises e) s i = i
  run_agent-Halted (delegates slug sub_prompt next) s i =
      let r = runner w slug sub_prompt s in
      run_agent-Halted (next r.0) r.1 (Keeps-1 Halted r (runner-Halted slug sub_prompt s i))
  run_agent-Halted (records b next) s i =
      let r = master_call_in w w.recorder b s in
      run_agent-Halted (next r.0) r.1 (Keeps-1 Halted r (master_call_in-Halted w.recorder b s i))
  run_agent-Halted (prechecks n next) s i =
      let r = precheck_in w w.recorder n s in
      run_agent-Halted (next r.0) r.1 (Keeps-1 Halted r (precheck_in-Halted w.recorder n s i))

  abbrev Stopped : Result RunError (Returned O) × Run → Type 0
  Stopped (r, s) = IsNotCompleted r × (s.leaf_outputs ≡ outputs) × (s.asked ≡ questions)

  recheck-Stopped :
      (o : Option O) (r : Result RunError (Option TaskStatus) × Run)
      → Yields Halted (λ status t. (is_cancelled w status ≡ true) × Halted t) r
      → Stopped (recheck w o r)
  unfolding recheck exit_cancelled publish record_metrics emit stamp_row
  recheck-Stopped o (err e, s) (a, b, c, d) = (tt, c, d)
  recheck-Stopped o (ok status, s) (y, h) = rw y (tt, h.2, h.3)

  finish-Stopped : (r : Result RunError (Option O) × Run) → Halted r.1 → Stopped (finish w r)
  unfolding finish exit_cancelled exit_failed publish record_metrics emit stamp_row
      read_persisted_status
  finish-Stopped (err task_cancelled, s) (a, b, c, d) = (tt, c, d)
  finish-Stopped (err (failure code), s) (a, b, c, d) = (tt, c, d)
  finish-Stopped (ok o, s) h = recheck-Stopped o _ (read-Triple s h)

-- From any point of a run with a row, if every later re-read of the status finds the task cancelled,
-- then whatever the agent still asks for and catches, no further leaf is called and none answers, and
-- the run does not complete: it returns the cancelled summary or raises.
pub cancellation_stops :
    {O : Type 0} (w : World O) (agent : Agent O) (s : Run)
    → is_some s.row ≡ true
    → ((n : ℕ) → s.reads ≤ n → w.persisted n ≡ ok cancelled)
    → let (r, t) = finish w (run_agent w agent s) in
      IsNotCompleted r × (t.leaf_outputs ≡ s.leaf_outputs) × (t.asked ≡ s.asked)
cancellation_stops w agent s row seen =
    finish-Stopped w s.reads seen s.leaf_outputs s.asked (run_agent w agent s) (
      Keeps-1 (Halted w s.reads seen s.leaf_outputs s.asked) (run_agent w agent s) (
        run_agent-Halted w s.reads seen s.leaf_outputs s.asked agent s
          (row, omega arith, refl, refl)))
