-- ===== src/Runtime/Coordinator/Complete.antt =====
-- A plan that the guards, the budget and the leaves let through is carried out whole.
use text.Mathlib.TextLemmas.{append-eq-nil_iff}
use text.Mathlib.TextLemmas.{append_assoc as text_assoc}
use mathlib.Core.List.{append-nil}
use Prim.Native.String.{◌++◌ as ◌+++◌}
use oriion.Prelude.{
  ℕ, ◌+◌, ◌≤◌, ◌≡◌, refl, sym, ap, ◌∙◌, String, str_eq, eq_iff, true, false, Option, none, some,
  List, [], ◌∷◌, ◌++◌, append_assoc, map, any, sum, leb, ◌==◌, if◌then◌else◌, All, arith, Result,
  ok, Bool-cases, inl, inr,
}
use oriion.Runtime.Budget.{RunError, estimate_step_cost}
use oriion.Runtime.Orchestrator.{
  Agent, returns, delegates, World, Run, Outcome, DelegateResult, run_agent,
}
use oriion.Runtime.Orchestrator.Execute.{output_of, execute_agent_task}
use oriion.Runtime.Orchestrator.Execute.Cap.{LeavesWithin}
use oriion.Runtime.Orchestrator.Execute.Answered.{
  At, IsRunning, delegates-answered, Admits, Screens, execute-Completes,
}
use oriion.Runtime.Plan.Order.{ordered_steps-All}
use oriion.Runtime.Plan.{DelegationStep, ordered_steps}
use oriion.Runtime.Coordinator.{
  ArtifactRef, CoordinatorOutput, Team, assert_delegation_allowed, agent_slugs, delegate_input,
  compose_sub_prompt, chain_output, mark_completed, or_raise, delegate_step, run_steps,
  execute_plan, coordinator_run,
}

-- The prompt of a step: its goal, and after it a section for each answer before, in their order, with
-- the role that gave it.
abbrev section : String × String → String
section (agent, output) = "## " +++ agent +++ " output\n" +++ output

abbrev sections : String × String → List (String × String) → String
sections x [] = section x
sections x (y ∷ ys) = section x +++ "\n\n" +++ sections y ys

abbrev pub prompt_of : String → List (String × String) → String
prompt_of goal [] = goal
prompt_of goal (x ∷ xs) = goal +++ "\n\n" +++ sections x xs

-- What the leaves answer to the steps in turn, where `earlier` has the roles and answers before them;
-- `answer` is told the number of the call.
abbrev pub transcript :
    (ℕ → String → String → DelegateResult)
    → ℕ
    → List (String × String)
    → List DelegationStep
    → List DelegateResult
transcript answer n earlier [] = []
transcript answer n earlier (s ∷ steps) =
    let d = answer n s.agent (prompt_of s.goal earlier) in
    d ∷ transcript answer (n + 1) (earlier ++ (s.agent, d.output) ∷ []) steps

-- What they are asked.
abbrev pub questions :
    (ℕ → String → String → DelegateResult)
    → ℕ
    → List (String × String)
    → List DelegationStep
    → List (String × String)
questions answer n earlier [] = []
questions answer n earlier (s ∷ steps) =
    let prompt = prompt_of s.goal earlier in
    (s.agent, prompt)
    ∷ questions answer (n + 1) (earlier ++ (s.agent, (answer n s.agent prompt).output) ∷ []) steps

-- One artifact for each step, of the step's type, with the identity and the normalised text of the answer.
abbrev pub deliverables :
    (String → String) → List DelegationStep → List DelegateResult → List ArtifactRef
deliverables normalize [] ds = []
deliverables normalize (s ∷ steps) [] = []
deliverables normalize (s ∷ steps) (d ∷ ds) =
    record { id = d.sub_task_id; type = s.artifact_type; path_or_inline = normalize d.output }
    ∷ deliverables normalize steps ds

-- A plan in which the steps that stand at the places of the given ones are completed, and no other.
abbrev pub all_completed : List DelegationStep → List DelegationStep → List DelegationStep
all_completed steps plan =
    map
      (λ (s : DelegationStep).
        if any (λ (d : DelegationStep). s.place == d.place) steps
        then record s { status = "completed" }
        else s)
      plan

abbrev pub cost_of : List DelegateResult → ℕ
cost_of ds = sum (map (λ (d : DelegateResult). d.cost_credits) ds)

abbrev pub estimates : List DelegationStep → ℕ
estimates steps = sum (map (λ (s : DelegationStep). estimate_step_cost s.agent) steps)

-- A step of a role that exists and is in the team, with something to do.
pub record Delegable (team : Team) (s : DelegationStep) : Type 0 where
  pub in_team : any (str_eq s.agent) team.available_agent_slugs ≡ true
  pub known : any (str_eq s.agent) agent_slugs ≡ true
  pub has_goal : str_eq s.goal "" ≡ false

str_eq_nonempty : (s : String) → (s ≡ "" → ⊥) → str_eq s "" ≡ false
str_eq_nonempty s h = elim (Bool-cases (str_eq s "")) [
  | inl y ↦ absurd (h ((eq_iff s "").0 y))
  | inr n ↦ n
]

compose-nonempty :
    (goal prior : String)
    → str_eq goal "" ≡ false
    → str_eq (compose_sub_prompt goal prior) "" ≡ false
unfolding compose_sub_prompt
compose-nonempty goal prior h = elim (Bool-cases (str_eq prior "")) [
  | inl y ↦ rw y h
  | inr n ↦ rw n (
      str_eq_nonempty (goal +++ ("\n\n" +++ prior))
        (λ e. ground (arith, h, (eq_iff goal "").1 (append-eq-nil_iff.0 e).0)))
]

-- What the loop carries along, by the roles and answers so far.
abbrev context : List (String × String) → String
context [] = ""
context (x ∷ xs) = sections x xs

section-nonempty : (x : String × String) → str_eq (section x) "" ≡ false
section-nonempty (agent, output) =
    str_eq_nonempty (section (agent, output))
      (λ e. ground (arith, (eq_iff "## " "").1 (append-eq-nil_iff.0 e).0))

sections-nonempty :
    (x : String × String) (xs : List (String × String)) → str_eq (sections x xs) "" ≡ false
sections-nonempty x [] = section-nonempty x
sections-nonempty x (y ∷ ys) =
    str_eq_nonempty (sections x (y ∷ ys))
      (λ e. ground (arith, section-nonempty x, (eq_iff (section x) "").1 (append-eq-nil_iff.0 e).0))

compose-context :
    (goal : String) (earlier : List (String × String))
    → compose_sub_prompt goal (context earlier) ≡ prompt_of goal earlier
unfolding compose_sub_prompt
compose-context goal [] = refl
compose-context goal (x ∷ xs) = rw (sections-nonempty x xs) refl

sections-snoc :
    (x y : String × String) (xs : List (String × String))
    → sections x xs +++ "\n\n" +++ section y ≡ sections x (xs ++ y ∷ [])
sections-snoc x y [] = refl
sections-snoc x y (z ∷ zs) =
    text_assoc (section x) ("\n\n" +++ sections z zs) ("\n\n" +++ section y)
    ∙ ap (λ s. section x +++ s)
        (text_assoc "\n\n" (sections z zs) ("\n\n" +++ section y)
          ∙ ap (λ s. "\n\n" +++ s) (sections-snoc z y zs))

chain-context :
    (earlier : List (String × String)) (agent output : String)
    → chain_output (context earlier) agent output ≡ context (earlier ++ (agent, output) ∷ [])
unfolding chain_output
chain-context [] agent output = refl
chain-context (x ∷ xs) agent output =
    rw (sections-nonempty x xs) (sections-snoc x (agent, output) xs)

-- The plan as the loop leaves it, one step after the other.
abbrev completed_in_turn : List DelegationStep → List DelegationStep → List DelegationStep
completed_in_turn [] plan = plan
completed_in_turn (s ∷ steps) plan = completed_in_turn steps (mark_completed s.place plan)

none_completed : (plan : List DelegationStep) → plan ≡ all_completed [] plan
none_completed [] = refl
none_completed (s ∷ plan) = ap (λ xs. s ∷ xs) (none_completed plan)

one_completed :
    (d : DelegationStep) (steps plan : List DelegationStep)
    → all_completed steps (mark_completed d.place plan) ≡ all_completed (d ∷ steps) plan
unfolding mark_completed
one_completed d steps [] = refl
one_completed d steps (s ∷ plan) = ground (arith, one_completed d steps plan)

in_turn-completed :
    (steps plan : List DelegationStep) → completed_in_turn steps plan ≡ all_completed steps plan
in_turn-completed [] plan = none_completed plan
in_turn-completed (d ∷ steps) plan =
    in_turn-completed steps (mark_completed d.place plan) ∙ one_completed d steps plan

-- The guards let a delegable step through.
allowed :
    {O : Type 0} (team : Team) (s : DelegationStep) (earlier : List (String × String))
    (next : DelegateResult → Agent O)
    → leb team.max_delegation_depth team.current_depth ≡ false
    → Delegable team s
    → delegate_step team s (context earlier) next
      ≡ delegates s.agent (prompt_of s.goal earlier) (λ r. or_raise r next)
unfolding delegate_step assert_delegation_allowed delegate_input or_raise
allowed team s earlier next depth d =
    rw (d.in_team, depth, d.known, compose-nonempty s.goal (context earlier) d.has_goal)
      (ap (λ p. delegates s.agent p (λ r. or_raise r next)) (compose-context s.goal earlier))

module _ {O : Type 0} (w : World O) (answer : ℕ → String → String → DelegateResult)
    (readable : (n : ℕ) → IsRunning w (w.persisted n))
    (answers : (n : ℕ) (slug sub_prompt : String)
      → w.leaf n slug sub_prompt ≡ ok (answer n slug sub_prompt))
    (within : LeavesWithin w) (normalize : String → String) (team : Team)
    (depth_left : leb team.max_delegation_depth team.current_depth ≡ false) where
  abbrev Reaches :
      ℕ → List DelegateResult → List (String × String) → Agent O → Agent O → Run → Type 0
  Reaches cost outputs asked before after s =
      (t : Run) × (calls : ℕ) × (run_agent w before s ≡ run_agent w after t)
      × At cost outputs asked calls t

  -- Each of the steps is delegated in turn, and the loop goes on with all that they delivered.
  pub run_steps-answered :
      (steps plan : List DelegationStep) (earlier : List (String × String))
      (artifacts : List ArtifactRef) (next : List DelegationStep → List ArtifactRef → Agent O)
      (cost calls : ℕ) (outputs : List DelegateResult) (asked : List (String × String)) (s : Run)
      → All (Delegable team) steps
      → cost + estimates steps ≤ w.budget_cap
      → At cost outputs asked calls s
      → let ds = transcript answer calls earlier steps in
        Reaches
          (cost + cost_of ds)
          (outputs ++ ds)
          (asked ++ questions answer calls earlier steps)
          (run_steps normalize team steps plan (context earlier) artifacts next)
          (next (completed_in_turn steps plan) (artifacts ++ deliverables normalize steps ds))
          s
  unfolding run_steps or_raise
  run_steps-answered [] plan earlier artifacts next cost calls outputs asked s ok_steps room
        (a, b, q, c) =
      (
        s,
        calls,
        ap (λ l. run_agent w (next plan l) s) (sym (append-nil artifacts)),
        (omega (arith, a), b ∙ sym (append-nil outputs), q ∙ sym (append-nil asked), c),
      )
  run_steps-answered (d ∷ steps) plan earlier artifacts next cost calls outputs asked s ok_steps
        room h =
      let prompt = prompt_of d.goal earlier in
      let a = answer calls d.agent prompt in
      let later = earlier ++ (d.agent, a.output) ∷ [] in
      let delivered = artifacts ++ deliverables normalize (d ∷ []) (a ∷ []) in
      let marked = mark_completed d.place plan in
      let k = λ (r : DelegateResult).
        run_steps normalize team steps marked (chain_output (context earlier) d.agent r.output)
          (artifacts ++ deliverables normalize (d ∷ []) (r ∷ [])) next in
      let cheap = within calls d.agent prompt a (answers calls d.agent prompt) in
      let (t, e, i) =
        delegates-answered w answer readable answers within cost outputs asked calls d.agent prompt
          (omega (arith, room)) (λ r. or_raise r k) s h in
      let (u, n, f, (x, y, q, z)) =
        run_steps-answered steps marked later delivered next (cost + a.cost_credits) (calls + 1)
          (outputs ++ a ∷ []) (asked ++ (d.agent, prompt) ∷ []) t ok_steps.1
          (omega (arith, room, cheap)) i in
      let ds = transcript answer (calls + 1) later steps in
      let chained =
        ap (λ prior. run_agent w (run_steps normalize team steps marked prior delivered next) t)
          (chain-context earlier d.agent a.output) in
      let gathered =
        ap (λ l. run_agent w (next (completed_in_turn steps marked) l) u)
          (append_assoc artifacts (deliverables normalize (d ∷ []) (a ∷ []))
            (deliverables normalize steps ds)) in
      (
        u,
        n,
        ap (λ agent. run_agent w agent s) (allowed team d earlier k depth_left ok_steps.0)
            ∙ (e ∙ (chained ∙ (f ∙ gathered))),
        (
          omega (arith, x),
          y ∙ append_assoc outputs (a ∷ []) ds,
          q
              ∙ append_assoc asked ((d.agent, prompt) ∷ [])
                  (questions answer (calls + 1) later steps),
          z,
        ),
      )

-- PlanExecutingCoordinator as an agent whose output is the plan's.
abbrev pub coordinate :
    (String → String)
    → Team
    → (String → Result RunError (Option CoordinatorOutput))
    → Option String
    → String
    → Agent CoordinatorOutput
coordinate normalize team ask preamble user_prompt =
    coordinator_run normalize team ask preamble user_prompt (λ out. returns (some out))

-- What the coordinator returns for a plan that is carried out.
abbrev pub carried_out :
    (String → String) → CoordinatorOutput → List DelegateResult → CoordinatorOutput
carried_out normalize plan ds =
    let steps = ordered_steps plan.delegation_plan in
    record plan {
      delegation_plan = all_completed steps plan.delegation_plan;
      artifacts = deliverables normalize steps ds;
      total_cost_credits = 0;
    }

-- A horizontal run whose task's status can be read and is never cancelled, whose quota and output checks
-- pass and that has no memory hook, of a coordinator whose model answers with a plan: if the steps have
-- goals and known roles of the team, a delegation is within the depth, every leaf call answers at no more
-- than its estimate, and the estimates of the plan's ordered steps fit the cap, then the run completes.
-- It has called the leaves for each step in that order and no others, each with its goal followed by a
-- section for every answer before it; it returns the plan with these steps completed, with one artifact
-- for each, of the step's type and with its answer, and costs what these cost.
pub coordinate-completes :
    (w : World CoordinatorOutput) (answer : ℕ → String → String → DelegateResult)
    → ((n : ℕ) → IsRunning w (w.persisted n))
    → ((n : ℕ) (slug sub_prompt : String)
        → w.leaf n slug sub_prompt ≡ ok (answer n slug sub_prompt))
    → LeavesWithin w
    → Admits w.quota_admission
    → Screens w.output_dlp
    → w.memory_extraction ≡ none
    → (normalize : String → String) (team : Team)
      (ask : String → Result RunError (Option CoordinatorOutput)) (user_prompt : String)
      (plan : CoordinatorOutput) (depth : ℕ) (before : List Outcome)
    → leb team.max_delegation_depth team.current_depth ≡ false
    → ask user_prompt ≡ ok (some plan)
    → All (Delegable team) plan.delegation_plan
    → estimates (ordered_steps plan.delegation_plan) ≤ w.budget_cap
    → let steps = ordered_steps plan.delegation_plan in
      let ds = transcript answer 0 [] steps in
      let (r, s) =
        execute_agent_task w (coordinate normalize team ask none user_prompt) depth before in
      (r ≡ ok (output_of (some (carried_out normalize plan ds)) (cost_of ds)))
      × (s.leaf_outputs ≡ ds)
      × (s.asked ≡ questions answer 0 [] steps)
unfolding coordinator_run execute_plan or_raise
coordinate-completes w answer readable answers within admits screens forgets normalize team ask
      user_prompt plan depth before depth_left asked delegable room =
    let steps = ordered_steps plan.delegation_plan in
    let ds = transcript answer 0 [] steps in
    let out = carried_out normalize plan ds in
    let finished = λ (delegation_plan : List DelegationStep) (artifacts : List ArtifactRef).
      returns (
        some (record plan {
          delegation_plan = delegation_plan;
          artifacts = artifacts;
          total_cost_credits = 0;
        })) in
    rw asked (
      execute-Completes w answer readable answers within (cost_of ds) ds
        (questions answer 0 [] steps) (some out) screens forgets _ depth before admits
        (λ s h.
          let (t, n, e, (a, b, q, c)) =
            run_steps-answered w answer readable answers within normalize team depth_left steps
              plan.delegation_plan [] [] finished 0 0 [] [] s
              (ordered_steps-All (Delegable team) plan.delegation_plan delegable)
              (omega (arith, room)) h in
          (
            t,
            e
                ∙ ap (λ p. run_agent w (finished p (deliverables normalize steps ds)) t)
                    (in_turn-completed steps plan.delegation_plan),
            (omega (arith, a), b, q),
          )))
