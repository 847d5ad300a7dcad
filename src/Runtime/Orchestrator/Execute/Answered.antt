-- ===== src/Runtime/Orchestrator/Execute/Answered.antt =====
-- A run whose task is not cancelled, whose leaves answer within their estimates, and whose hooks let
-- it pass.
use mathlib.Core.Path.{subst}
use oriion.Prelude.{
  ℕ, ◌+◌, ◌≤◌, ◌≡◌, refl, sym, ap, String, false, Option, none, some, List, [], ◌∷◌, ◌++◌, ltb,
  arith, Result, ok, err, Bool-cases, inl, inr,
}
use oriion.Billing.Quota.{QuotaStatus}
use oriion.Tasks.Tree.{TaskStatus}
use oriion.Runtime.Budget.{RunError, check_budget, estimate_step_cost}
use oriion.Runtime.Events.{TaskStreamEventType, Payload}
use oriion.Runtime.Orchestrator.{
  Agent, returns, delegates, TaskRow, World, Run, Outcome, DelegateResult, publish, read_as,
  read_row, read_persisted_status, is_cancelled, unless_cancelled, stop_if_cancelled, check, say,
  call_leaf, fold_leaf, runner, run_agent,
}
use oriion.Runtime.Orchestrator.Steps.{Yields, Triple, then_do-Triple}
use oriion.Runtime.Orchestrator.Execute.Cap.{LeavesWithin}
use oriion.Runtime.Orchestrator.Execute.{
  Returned, output_of, start, warn_if, admission_by, admission, record_metrics, emit, stamp_row,
  complete, remember_by, remember, screened_by, screen_by, screen, recheck, finish,
  execute_agent_task,
}

-- What a run has spent, collected and called.
abbrev pub At : ℕ → List DelegateResult → List (String × String) → ℕ → Run → Type 0
At cost outputs questions calls s =
    (s.accumulated_cost ≡ cost)
    × (s.leaf_outputs ≡ outputs)
    × (s.asked ≡ questions)
    × (s.calls ≡ calls)

abbrev pub Spent : ℕ → List DelegateResult → List (String × String) → Run → Type 0
Spent cost outputs questions s =
    (s.accumulated_cost ≡ cost) × (s.leaf_outputs ≡ outputs) × (s.asked ≡ questions)

abbrev pub Never : Run → Type 0
Never s = ⊥

-- The hooks that a run meets let it pass.
abbrev pub Admits : Option (Result RunError QuotaStatus) → Type 0
Admits none = Unit
Admits (some (ok q)) = Unit
Admits (some (err e)) = ⊥

abbrev pub Screens : {O : Type 0} → Option (Option O → Result RunError Unit) → Type 0
Screens none = Unit
Screens {O} (some guard) = (o : Option O) → guard o ≡ ok tt

-- A re-read that answers, and finds the task not cancelled.
abbrev pub IsRunning : {O : Type 0} → World O → Result RunError TaskStatus → Type 0
IsRunning w r = (status : TaskStatus) × (r ≡ ok status) × (is_cancelled w (some status) ≡ false)

module _ {O : Type 0} (w : World O) (answer : ℕ → String → String → DelegateResult)
    (readable : (n : ℕ) → IsRunning w (w.persisted n))
    (answers : (n : ℕ) (slug sub_prompt : String)
      → w.leaf n slug sub_prompt ≡ ok (answer n slug sub_prompt))
    (within : LeavesWithin w) where
  read_row-At :
      (cost : ℕ) (outputs : List DelegateResult) (questions : List (String × String)) (calls : ℕ)
      (r : Option TaskRow)
      → Triple
          (At cost outputs questions calls)
          (read_row w r)
          Never
          (λ status s. (is_cancelled w status ≡ false) × At cost outputs questions calls s)
  unfolding read_row read_as
  read_row-At cost outputs questions calls none s h = (refl, h)
  read_row-At cost outputs questions calls (some r) s h =
      let (status, e, f) = readable s.reads in rw e (f, h)

  stop-At :
      (cost : ℕ) (outputs : List DelegateResult) (questions : List (String × String)) (calls : ℕ)
      → Triple
          (At cost outputs questions calls)
          (stop_if_cancelled w)
          Never
          (λ _. At cost outputs questions calls)
  unfolding stop_if_cancelled read_persisted_status unless_cancelled
  stop-At cost outputs questions calls =
      then_do-Triple (At cost outputs questions calls) Never
        (λ status s. (is_cancelled w status ≡ false) × At cost outputs questions calls s)
        (λ _. At cost outputs questions calls) (read_persisted_status w) _
        (λ s h. read_row-At cost outputs questions calls s.row s h) (λ status s h. rw h.0 h.1)

  say-At :
      (cost : ℕ) (outputs : List DelegateResult) (questions : List (String × String)) (calls : ℕ)
      (t : TaskStreamEventType) (p : Payload)
      → Triple
          (At cost outputs questions calls)
          (say w t p)
          Never
          (λ _. At cost outputs questions calls)
  unfolding say publish
  say-At cost outputs questions calls t p s h = h

  check-At :
      (cost : ℕ) (outputs : List DelegateResult) (questions : List (String × String))
      (calls pending : ℕ)
      → cost + pending ≤ w.budget_cap
      → Triple
          (At cost outputs questions calls)
          (check w pending)
          Never
          (λ _. At cost outputs questions calls)
  unfolding check check_budget
  check-At cost outputs questions calls pending fits s h =
      let e : ltb w.budget_cap (s.accumulated_cost + pending) ≡ false = ground (arith, h.0, fits) in
      rw e h

  call_leaf-At :
      (cost : ℕ) (outputs : List DelegateResult) (questions : List (String × String)) (calls : ℕ)
      (slug p : String)
      → Triple (At cost outputs questions calls) (call_leaf w slug p) Never (λ d s.
        (d ≡ answer calls slug p) × At cost outputs (questions ++ (slug, p) ∷ []) (calls + 1) s)
  unfolding call_leaf
  call_leaf-At cost outputs questions calls slug p s (a, b, q, c) =
      rw (answers s.calls slug p)
        (ap (λ n. answer n slug p) c, (a, b, ap (λ l. l ++ (slug, p) ∷ []) q, ap (λ n. n + 1) c))

  fold_leaf-At :
      (cost : ℕ) (outputs : List DelegateResult) (questions : List (String × String)) (calls : ℕ)
      (d : DelegateResult)
      → Triple
          (At cost outputs questions calls)
          (fold_leaf w d)
          Never
          (λ _. At (cost + d.cost_credits) (outputs ++ d ∷ []) questions calls)
  unfolding fold_leaf
  fold_leaf-At cost outputs questions calls d s (a, b, q, c) =
      (ap (λ n. n + d.cost_credits) a, ap (λ l. l ++ d ∷ []) b, q, c)

  module _ (cost : ℕ) (outputs : List DelegateResult) (questions : List (String × String))
      (calls : ℕ) (slug p : String) (room : cost + estimate_step_cost slug ≤ w.budget_cap) where
    abbrev reply : DelegateResult
    reply = answer calls slug p

    abbrev Before : Run → Type 0
    Before = At cost outputs questions calls

    abbrev pub After : Run → Type 0
    After =
        At (cost + reply.cost_credits) (outputs ++ reply ∷ []) (questions ++ (slug, p) ∷ [])
          (calls + 1)

    abbrev Answers : DelegateResult → Run → Type 0
    Answers d s = (d ≡ reply) × After s

    costs_room : cost + reply.cost_credits + 0 ≤ w.budget_cap
    costs_room = omega (arith, room, within calls slug p reply (answers calls slug p))

    folded :
        (d : DelegateResult)
        → d ≡ reply
        → Triple
            (At cost outputs (questions ++ (slug, p) ∷ []) (calls + 1))
            (fold_leaf w d)
            Never
            (λ _. After)
    folded d e = rw e (fold_leaf-At cost outputs (questions ++ (slug, p) ∷ []) (calls + 1) reply)

    said : (t : TaskStreamEventType) (e : Payload) → Triple After (say w t e) Never (λ _. After)
    said t e = say-At _ _ _ _ t e

    checked : Triple After (check w 0) Never (λ _. After)
    checked = check-At _ _ _ _ 0 costs_room

    runner-Answers : Triple Before (runner w slug p) Never Answers
    unfolding runner
    runner-Answers =
        then_do-Triple Before Never (λ _. Before) Answers _ _ (stop-At cost outputs questions calls)
          (λ _.
            then_do-Triple Before Never (λ _. Before) Answers _ _
              (say-At cost outputs questions calls _ _)
              (λ _.
                then_do-Triple Before Never (λ _. Before) Answers _ _
                  (check-At cost outputs questions calls _ room)
                  (λ _.
                    then_do-Triple Before Never
                      (λ d s.
                        (d ≡ reply) × At cost outputs (questions ++ (slug, p) ∷ []) (calls + 1) s)
                      Answers _ _ (call_leaf-At cost outputs questions calls slug p)
                      (λ d s (e, h).
                        then_do-Triple (At cost outputs (questions ++ (slug, p) ∷ []) (calls + 1))
                          Never (λ _. After) Answers _ _ (folded d e)
                          (λ _.
                            then_do-Triple After Never (λ _. After) Answers _ _ checked
                              (λ _.
                                then_do-Triple After Never (λ _. After) Answers _ _ (said _ _)
                                  (λ _ s i. (e, i))))
                          s h))))

    step_through :
        (next : Result RunError DelegateResult → Agent O) (r : Result RunError DelegateResult × Run)
        → Yields Never Answers r
        → (t : Run) × (run_agent w (next r.0) r.1 ≡ run_agent w (next (ok reply)) t) × After t
    step_through next (ok d, t) (e, h) = (t, ap (λ d. run_agent w (next (ok d)) t) e, h)
    step_through next (err e, t) h = absurd h

    -- A delegation for which there is room is answered.
    pub delegates-answered :
        (next : Result RunError DelegateResult → Agent O) (s : Run)
        → Before s
        → (t : Run) × (run_agent w (delegates slug p next) s ≡ run_agent w (next (ok reply)) t)
          × After t
    unfolding run_agent
    delegates-answered next s h = step_through next (runner w slug p s) (runner-Answers s h)

  start-At : (depth : ℕ) (before : List Outcome) → At 0 [] [] 0 (start w depth before)
  unfolding start publish
  start-At depth before = (refl, refl, refl, refl)

  admission-At :
      (q : Option (Result RunError QuotaStatus))
      → Admits q
      → Triple (At 0 [] [] 0) (admission_by w q) Never (λ _. At 0 [] [] 0)
  unfolding admission_by warn_if publish
  admission-At none a s h = h
  admission-At (some (err e)) a s h = absurd a
  admission-At (some (ok q)) a s h = elim (Bool-cases q.soft_warn) [
    | inl y ↦ rw y h
    | inr n ↦ rw n h
  ]

  module _ (cost : ℕ) (outputs : List DelegateResult) (questions : List (String × String))
      (o : Option O) where
    abbrev Completes : Result RunError (Returned O) × Run → Type 0
    Completes (r, s) =
        (r ≡ ok (output_of o cost)) × (s.leaf_outputs ≡ outputs) × (s.asked ≡ questions)

    complete-Completes : (s : Run) → Spent cost outputs questions s → Completes (complete w o s)
    unfolding complete publish record_metrics emit stamp_row
    complete-Completes s (a, b, q) = (ap (λ n. ok (output_of o n)) a, b, q)

    remember-At :
        (m : Option (Option O → ℕ → Result RunError (ℕ × ℕ × ℕ)))
        → m ≡ none
        → (s : Run) → Spent cost outputs questions s
        → Spent cost outputs questions (remember_by w m o s)
    unfolding remember_by
    remember-At none e s h = h
    remember-At (some hook) e s h = absurd (cc)

    screen-Completes :
        (g : Option (Option O → Result RunError Unit))
        → Screens g
        → w.memory_extraction ≡ none
        → (s : Run) → Spent cost outputs questions s
        → Completes (screen_by w g o s)
    unfolding screen_by screened_by remember
    screen-Completes none k m s h = complete-Completes _ (remember-At w.memory_extraction m s h)
    screen-Completes (some guard) k m s h =
        rw (k o) (complete-Completes _ (remember-At w.memory_extraction m s h))

    module _ (screens : Screens w.output_dlp) (forgets : w.memory_extraction ≡ none) where
      recheck-Completes :
          (r : Result RunError (Option TaskStatus) × Run)
          → Yields Never
              (λ status s. (is_cancelled w status ≡ false) × Spent cost outputs questions s)
              r
          → Completes (recheck w o r)
      unfolding recheck screen
      recheck-Completes (err e, s) h = absurd h
      recheck-Completes (ok status, s) (y, h) =
          rw y (screen-Completes w.output_dlp screens forgets s h)

      read-Spent :
          (r : Option TaskRow)
          → Triple
              (Spent cost outputs questions)
              (read_row w r)
              Never
              (λ status s. (is_cancelled w status ≡ false) × Spent cost outputs questions s)
      unfolding read_row
      read-Spent none s h = (refl, h)
      read-Spent (some r) s (a, b, q) =
          weaken _ (read_row-At cost outputs questions s.calls (some r) s (a, b, q, refl))
        where
          weaken :
              (x : Result RunError (Option TaskStatus) × Run)
              → Yields Never
                  (λ status t.
                    (is_cancelled w status ≡ false) × At cost outputs questions s.calls t)
                  x
              → Yields Never
                  (λ status t. (is_cancelled w status ≡ false) × Spent cost outputs questions t)
                  x
          weaken (ok y, t) (e, (f, g, k, l)) = (e, (f, g, k))
          weaken (err y, t) h = absurd h

      finish-Completes :
          (r : Result RunError (Option O) × Run)
          → Yields Never (λ a s. (a ≡ o) × Spent cost outputs questions s) r
          → Completes (finish w r)
      unfolding finish read_persisted_status
      finish-Completes (err e, s) h = absurd h
      finish-Completes (ok a, s) (e, h) = rw e (recheck-Completes _ (read-Spent s.row s h))

      -- An agent that ends with an output, from any state in which nothing is spent, completes its run.
      pub execute-Completes :
          (agent : Agent O) (depth : ℕ) (before : List Outcome)
          → Admits w.quota_admission
          → ((s : Run)
              → At 0 [] [] 0 s
              → (t : Run) × (run_agent w agent s ≡ run_agent w (returns o) t)
                × Spent cost outputs questions t)
          → Completes (execute_agent_task w agent depth before)
      unfolding execute_agent_task admission run_agent
      execute-Completes agent depth before admits runs = finish-Completes _ (
          then_do-Triple (At 0 [] [] 0) Never (λ _. At 0 [] [] 0)
            (λ a s. (a ≡ o) × Spent cost outputs questions s) _ _
            (admission-At w.quota_admission admits)
            (λ _ s h.
              let (t, e, i) = runs s h in
              subst (Yields Never (λ a s. (a ≡ o) × Spent cost outputs questions s)) (sym e)
                (refl, i))
            (start w depth before) (start-At depth before))
