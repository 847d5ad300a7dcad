-- ===== src/Runtime/Coordinator/Tests.antt =====
-- The theorem about a plan that is carried out, at a plan of two steps.
use oriion.Prelude.{ℕ, ◌+◌, ◌≤◌, ◌≡◌, refl, String, Option, none, some, [], ◌∷◌, arith, Result, ok}
use oriion.Gateway.Router.Models.{resolve_max_tokens}
use oriion.Tasks.Tree.{running}
use oriion.Runtime.Budget.{RunError, estimate_step_cost}
use oriion.Runtime.Orchestrator.{World, DelegateResult}
use oriion.Runtime.Orchestrator.Execute.{output_of, execute_agent_task}
use oriion.Runtime.Orchestrator.Execute.Cap.{LeavesWithin}
use oriion.Runtime.Plan.{
  DelegationStep, or_else, by_num, visit_dep, visit_deps, enter, leave, visit, visit_all,
  ordered_steps,
}
use oriion.Runtime.Coordinator.{CoordinatorOutput, Team}
use oriion.Runtime.Coordinator.Complete.{
  transcript, questions, cost_of, estimates, coordinate, carried_out, coordinate-completes,
}

-- A leaf answers with its own role.
abbrev answer : ℕ → String → String → DelegateResult
answer n slug sub_prompt = record {
  sub_task_id = n + 70;
  output = slug;
  cost_credits = 1000;
  input_tokens = 40;
  tokens_used = 60;
}

abbrev world : World CoordinatorOutput
world = record {
  task_id = 7;
  row = none;
  persisted = λ _. ok running;
  leaf = λ n slug p. ok (answer n slug p);
  recorder = none;
  quota_admission = none;
  output_dlp = none;
  memory_extraction = none;
  budget_cap = 50000000;
  started = 1;
  completed = 9;
}

-- The writer's step stands first and needs the researcher's.
abbrev writing : DelegationStep
writing = record {
  place = 0;
  step = 2;
  agent = "writer";
  goal = "Write it.";
  status = "skipped";
  artifact_type = "brief";
  depends_on = 1 ∷ [];
  cost_estimate_tcredits = 0;
}

abbrev research : DelegationStep
research = record {
  place = 1;
  step = 1;
  agent = "researcher";
  goal = "Find out.";
  status = "skipped";
  artifact_type = "matrix";
  depends_on = [];
  cost_estimate_tcredits = 0;
}

abbrev plan : CoordinatorOutput
plan = record {
  summary = "A plan.";
  delegation_plan = writing ∷ research ∷ [];
  citations = [];
  artifacts = [];
  confidence = "high";
  open_questions = [];
  assumptions = [];
  total_cost_credits = 0;
}

abbrev team : Team
team = record {
  available_agent_slugs = "researcher" ∷ "writer" ∷ [];
  current_depth = 0;
  max_delegation_depth = 5;
}

abbrev ask : String → Result RunError (Option CoordinatorOutput)
ask prompt = ok (some plan)

abbrev as_is : String → String
as_is text = text

world_within : LeavesWithin world
unfolding estimate_step_cost resolve_max_tokens
world_within n slug sub_prompt r h = ground (arith, h)

plan_fits : estimates (ordered_steps (writing ∷ research ∷ [])) ≤ 50000000
unfolding ordered_steps visit_all visit visit_deps visit_dep by_num or_else enter leave
    estimate_step_cost resolve_max_tokens
plan_fits = omega arith

coordinate-completes_example :
    let ds = transcript answer 0 [] (ordered_steps plan.delegation_plan) in
    let (r, s) = execute_agent_task world (coordinate as_is team ask none "Help.") 2 [] in
    (r ≡ ok (output_of (some (carried_out as_is plan ds)) (cost_of ds)))
    × (s.leaf_outputs ≡ ds)
    × (s.asked ≡ questions answer 0 [] (ordered_steps plan.delegation_plan))
coordinate-completes_example =
    coordinate-completes world answer (λ n. (running, refl, refl)) (λ n slug p. refl) world_within
      tt tt refl as_is team ask "Help." plan 2 [] refl refl
      (
        record { in_team = refl; known = refl; has_goal = refl },
        (record { in_team = refl; known = refl; has_goal = refl }, tt),
      )
      plan_fits

-- The writer is asked with what the researcher found.
writer_asked :
    questions answer 0 [] (ordered_steps plan.delegation_plan)
    ≡ ("researcher", "Find out.") ∷ ("writer", "Write it.\n\n## researcher output\nresearcher") ∷ []
unfolding ordered_steps visit_all visit visit_deps visit_dep by_num or_else enter leave
writer_asked = refl
