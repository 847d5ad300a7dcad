-- ===== src/Runtime/Orchestrator/Execute/Cap.antt =====
-- The per-task budget: what a run may cost.
use oriion.Prelude.{
  ℕ, ◌+◌, ◌≤◌, ◌≡◌, refl, String, Option, none, some, List, ltb, arith, Result, ok, err, Bool-cases,
  inl, inr,
}
use oriion.Billing.Quota.{QuotaStatus}
use oriion.Tasks.Tree.{TaskStatus}
use oriion.Runtime.Budget.{RunError, task_cancelled, failure, check_budget, estimate_step_cost}
use oriion.Runtime.Events.{TaskStreamEventType, Payload}
use oriion.Runtime.Orchestrator.{
  Agent, returns, raises, delegates, records, prechecks, TaskRow, World, Run, then_do, Outcome,
  publish, read_as, read_row, read_persisted_status, is_cancelled, unless_cancelled,
  stop_if_cancelled, check, say, call_leaf, fold_leaf, runner, master_call_in, master_call,
  precheck_in, precheck, run_agent, DelegateResult,
}
use oriion.Runtime.Orchestrator.Steps.{
  Yields, Triple, Keeps, then_do-Keeps, then_do-Triple, Keeps-1, either,
}
use oriion.Runtime.Orchestrator.Execute.{
  start, warn_if, admission_by, admission, record_metrics, emit, stamp_row, exit_cancelled,
  exit_failed, complete, fold_memory, remember_by, remember, screened_by, screen_by, screen,
  recheck, finish, execute_agent_task,
}

module _ {O : Type 0} (w : World O) where
  -- Every leaf call costs at most what was estimated for it before.
  abbrev pub LeavesWithin : Type 0
  LeavesWithin =
      (n : ℕ) (slug sub_prompt : String) (r : DelegateResult)
      → w.leaf n slug sub_prompt ≡ ok r
      → r.cost_credits ≤ estimate_step_cost slug

  abbrev Bounded : Run → Type 0
  Bounded s = s.accumulated_cost ≤ w.budget_cap

  -- There is room for a call that was estimated at `pending`.
  abbrev Room : ℕ → Run → Type 0
  Room pending s = s.accumulated_cost + pending ≤ w.budget_cap

  say-Keeps : (t : TaskStreamEventType) (p : Payload) → Keeps Bounded (say w t p)
  unfolding say publish
  say-Keeps t p s i = i

  check-Triple : (n : ℕ) → Triple Bounded (check w n) Bounded (λ _. Room n)
  unfolding check check_budget
  check-Triple n s i = elim (Bool-cases (ltb w.budget_cap (s.accumulated_cost + n))) [
    | inl over ↦ rw over i
    | inr fits ↦ rw fits (ground (arith, fits))
  ]

  -- After a leaf call there is room for what it cost.
  call_leaf_within :
      (slug : String) (r : Result RunError DelegateResult) (s : Run)
      → ((d : DelegateResult) → r ≡ ok d → d.cost_credits ≤ estimate_step_cost slug)
      → Room (estimate_step_cost slug) s
      → Yields Bounded (λ d. Room d.cost_credits) (r, s)
  call_leaf_within slug (ok d) s h i = omega (arith, h d refl, i)
  call_leaf_within slug (err e) s h i = omega (arith, i)

  fold_leaf-Triple :
      (d : DelegateResult) → Triple (Room d.cost_credits) (fold_leaf w d) Bounded (λ _. Bounded)
  unfolding fold_leaf
  fold_leaf-Triple d s i = i

  recheck_Bounded : Triple Bounded (check w 0) Bounded (λ _. Bounded)
  unfolding check
  recheck_Bounded s i = either Bounded (check_budget s.accumulated_cost 0 w.budget_cap) s i

  read_row-Keeps : (r : Option TaskRow) → Keeps Bounded (read_row w r)
  unfolding read_row read_as
  read_row-Keeps none s i = i
  read_row-Keeps (some r) s i = read_as-Keeps (w.persisted s.reads) s i
    where
      read_as-Keeps : (o : Result RunError TaskStatus) → Keeps Bounded (read_as w r o)
      read_as-Keeps (err e) s i = i
      read_as-Keeps (ok status) s i = i

  read-Keeps : Keeps Bounded (read_persisted_status w)
  unfolding read_persisted_status
  read-Keeps s i = read_row-Keeps s.row s i

  stop-Keeps : Keeps Bounded (stop_if_cancelled w)
  unfolding stop_if_cancelled unless_cancelled
  stop-Keeps = then_do-Keeps Bounded _ _ read-Keeps (λ status s i. either Bounded _ s i)

  module _ (within : LeavesWithin) where
    call_leaf-Triple :
        (slug sub_prompt : String)
        → Triple
            (Room (estimate_step_cost slug))
            (call_leaf w slug sub_prompt)
            Bounded
            (λ d. Room d.cost_credits)
    unfolding call_leaf
    call_leaf-Triple slug sub_prompt s i =
        call_leaf_within slug (w.leaf s.calls slug sub_prompt) _ (within s.calls slug sub_prompt) i

    runner-Keeps : (slug sub_prompt : String) → Keeps Bounded (runner w slug sub_prompt)
    unfolding runner
    runner-Keeps slug sub_prompt = then_do-Keeps Bounded _ _ stop-Keeps (λ _.
        then_do-Keeps Bounded _ _ (say-Keeps _ _) (λ _.
          then_do-Triple Bounded Bounded (λ _. Room (estimate_step_cost slug)) (λ _. Bounded) _ _
            (check-Triple _)
            (λ _.
              then_do-Triple (Room (estimate_step_cost slug)) Bounded (λ d. Room d.cost_credits)
                (λ _. Bounded) _ _ (call_leaf-Triple slug sub_prompt)
                (λ d.
                  then_do-Triple (Room d.cost_credits) Bounded (λ _. Bounded) (λ _. Bounded) _ _
                    (fold_leaf-Triple d)
                    (λ _.
                      then_do-Keeps Bounded _ _ recheck_Bounded
                        (λ _. then_do-Keeps Bounded _ _ (say-Keeps _ _) (λ _ s i. i)))))))

    module _ (horizontal : w.recorder ≡ none) where
      run_agent-Bounded : (agent : Agent O) → Keeps Bounded (run_agent w agent)
      unfolding run_agent master_call precheck master_call_in precheck_in
      run_agent-Bounded (returns o) s i = i
      run_agent-Bounded (raises e) s i = i
      run_agent-Bounded (delegates slug sub_prompt next) s i =
          let r = runner w slug sub_prompt s in
          run_agent-Bounded (next r.0) r.1 (Keeps-1 Bounded r (runner-Keeps slug sub_prompt s i))
      run_agent-Bounded (records b next) s i = rw horizontal (run_agent-Bounded (next (ok 0)) s i)
      run_agent-Bounded (prechecks n next) s i =
          rw horizontal (run_agent-Bounded (next (ok tt)) s i)

    -- Every memory hook call costs at most this much.
    abbrev pub MemoryWithin : ℕ → Option (Option O → ℕ → Result RunError (ℕ × ℕ × ℕ)) → Type 0
    MemoryWithin m none = Unit
    MemoryWithin m (some hook) = (o : Option O) (n c a b : ℕ) → hook o n ≡ ok (c, a, b) → c ≤ m

    abbrev Spent : ℕ → Run → Type 0
    Spent m s = s.accumulated_cost ≤ w.budget_cap + m

    fold_memory-Spent :
        (m : ℕ) (r : Result RunError (ℕ × ℕ × ℕ)) (s : Run)
        → ((c a b : ℕ) → r ≡ ok (c, a, b) → c ≤ m)
        → Bounded s
        → Spent m (fold_memory w r s)
    unfolding fold_memory publish
    fold_memory-Spent m (err e) s h i = omega (arith, i)
    fold_memory-Spent m (ok (c, a, b)) s h i = omega (arith, h c a b refl, i)

    remember_by-Spent :
        (m : ℕ) (k : Option (Option O → ℕ → Result RunError (ℕ × ℕ × ℕ))) (o : Option O) (s : Run)
        → MemoryWithin m k
        → Bounded s
        → Spent m (remember_by w k o s)
    unfolding remember_by
    remember_by-Spent m none o s h i = omega (arith, i)
    remember_by-Spent m (some hook) o s h i = fold_memory-Spent m _ s (h o _) i

    screen-Spent :
        (m : ℕ) (g : Option (Option O → Result RunError Unit)) (o : Option O) (s : Run)
        → MemoryWithin m w.memory_extraction
        → Bounded s
        → Spent m (screen_by w g o s).1
    unfolding screen_by screened_by complete exit_failed remember publish record_metrics emit
        stamp_row
    screen-Spent m none o s h i = remember_by-Spent m w.memory_extraction o s h i
    screen-Spent m (some g) o s h i = screened (g o)
      where
        screened : (r : Result RunError Unit) → Spent m (screened_by w o r s).1
        screened (err e) = omega (arith, i)
        screened (ok u) = remember_by-Spent m w.memory_extraction o s h i

    recheck-Spent :
        (m : ℕ) (o : Option O) (r : Result RunError (Option TaskStatus) × Run)
        → MemoryWithin m w.memory_extraction
        → Bounded r.1
        → Spent m (recheck w o r).1
    unfolding recheck screen exit_cancelled publish record_metrics emit stamp_row
    recheck-Spent m o (err e, s) h i = omega (arith, i)
    recheck-Spent m o (ok status, s) h i = elim (Bool-cases (is_cancelled w status)) [
      | inl y ↦ rw y (omega (arith, i))
      | inr n ↦ rw n (screen-Spent m w.output_dlp o s h i)
    ]

    finish-Spent :
        (m : ℕ) (r : Result RunError (Option O) × Run)
        → MemoryWithin m w.memory_extraction
        → Bounded r.1
        → Spent m (finish w r).1
    unfolding finish exit_cancelled exit_failed publish record_metrics emit stamp_row
    finish-Spent m (err task_cancelled, s) h i = omega (arith, i)
    finish-Spent m (err (failure code), s) h i = omega (arith, i)
    finish-Spent m (ok o, s) h i = recheck-Spent m o _ h (Keeps-1 Bounded _ (read-Keeps s i))

    warn_if-Keeps : (q : QuotaStatus) → Keeps Bounded (warn_if w q)
    unfolding warn_if publish
    warn_if-Keeps q s i = elim (Bool-cases q.soft_warn) [ inl y ↦ rw y i | inr n ↦ rw n i ]

    admission-Keeps : (q : Option (Result RunError QuotaStatus)) → Keeps Bounded (admission_by w q)
    unfolding admission_by
    admission-Keeps none s i = i
    admission-Keeps (some (err e)) s i = i
    admission-Keeps (some (ok q)) s i = warn_if-Keeps q s i

    -- A run with no master recorder, in which each leaf call costs at most its estimate and the memory
    -- hook at most m, costs at most the cap and m, however many steps the agent asks for, and also where
    -- it catches the refusals and goes on.
    pub execute_agent_task_within :
        (m depth : ℕ) (before : List Outcome) (agent : Agent O)
        → w.recorder ≡ none
        → MemoryWithin m w.memory_extraction
        → (execute_agent_task w agent depth before).1.accumulated_cost ≤ w.budget_cap + m
    unfolding execute_agent_task admission start
    execute_agent_task_within m depth before agent horizontal h =
        let r = then_do (admission w) (λ _. run_agent w agent) (start w depth before) in
        finish-Spent m r h (
          Keeps-1 Bounded r (
            then_do-Keeps Bounded (admission w) (λ _. run_agent w agent)
              (admission-Keeps w.quota_admission) (λ _. run_agent-Bounded horizontal agent)
              (start w depth before) (unfold publish in omega arith)))
