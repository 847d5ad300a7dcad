-- ===== src/Runtime/Coordinator.antt =====
-- agents/coordinator.py: what a coordinator returns; agents/tools/delegate.py: the guards of a
-- delegation; runtime/dispatch.py: PlanExecutingCoordinator, as an agent of Runtime.Orchestrator. What
-- the language model answers, and the normalisation of an artifact's text, are arguments.
pub mod Complete
mod Tests
use oriion.Prelude.{
  ℕ, String, Bool, true, false, not, Option, none, some, List, [], ◌∷◌, ◌++◌, map, any, leb, ◌==◌,
  str_eq, if◌then◌else◌, Result, ok, err, ◌>>◌, raise_if,
}
use Prim.Native.String.{◌++◌ as ◌+++◌}
use oriion.Runtime.Budget.{RunError, failure}
use oriion.Runtime.Orchestrator.{DelegateResult, Agent, returns, raises, delegates}
use oriion.Runtime.Plan.{DelegationStep, ordered_steps}

pub record Citation : Type 0 where
  pub url : String
  pub accessed : Option String
  pub claim : String

-- `type` is the artifact's type.
pub record ArtifactRef : Type 0 where
  pub id : ℕ
  pub type : String
  pub path_or_inline : String

pub record CoordinatorOutput : Type 0 where
  pub summary : String
  pub delegation_plan : List DelegationStep
  pub citations : List Citation
  pub artifacts : List ArtifactRef
  pub confidence : String
  pub open_questions : List String
  pub assumptions : List String
  pub total_cost_credits : ℕ

-- What of CoordinatorDeps the guards read.
pub record Team : Type 0 where
  pub available_agent_slugs : List String
  pub current_depth : ℕ
  pub max_delegation_depth : ℕ

abbrev pub delegation_target_invalid : RunError
delegation_target_invalid = failure "agents.delegation.target_invalid"

abbrev pub delegation_depth_exceeded : RunError
delegation_depth_exceeded = failure "agents.delegation.depth_exceeded"

unfoldable pub assert_delegation_allowed : String → Team → Result RunError Unit
assert_delegation_allowed target_slug team =
    raise_if (not (any (str_eq target_slug) team.available_agent_slugs)) delegation_target_invalid
    >> raise_if (leb team.max_delegation_depth team.current_depth) delegation_depth_exceeded

-- AgentSlug.
abbrev pub agent_slugs : List String
agent_slugs = "coordinator" ∷ "researcher" ∷ "writer" ∷ "analyst" ∷ []

-- What pydantic checks when a DelegateInput is made.
unfoldable pub delegate_input : String → String → Result RunError Unit
delegate_input target_agent_slug sub_prompt =
    raise_if (not (any (str_eq target_agent_slug) agent_slugs)) (failure "ValidationError")
    >> raise_if (str_eq sub_prompt "") (failure "ValidationError")

unfoldable pub compose_sub_prompt : String → String → String
compose_sub_prompt goal prior_context =
    if str_eq prior_context "" then goal else goal +++ "\n\n" +++ prior_context

-- What the loop adds to `prior_context`.
unfoldable pub chain_output : String → String → String → String
chain_output prior_context agent output =
    let own = "## " +++ agent +++ " output\n" +++ output in
    if str_eq prior_context "" then own else prior_context +++ "\n\n" +++ own

-- `step.status = "completed"`, on the object that the plan and the order share.
unfoldable pub mark_completed : ℕ → List DelegationStep → List DelegationStep
mark_completed place =
    map (λ (s : DelegationStep). if s.place == place then record s { status = "completed" } else s)

-- A `raise` where a call raises.
pub or_raise : {A O : Type 0} → Result RunError A → (A → Agent O) → Agent O
or_raise (ok a) next = next a
or_raise (err e) next = raises e

-- One delegation of the loop, with its guards; `next` goes on with the result.
unfoldable pub delegate_step :
    {O : Type 0} → Team → DelegationStep → String → (DelegateResult → Agent O) → Agent O
unfolding or_raise
delegate_step team s prior_context next =
    let sub_prompt = compose_sub_prompt s.goal prior_context in
    or_raise (assert_delegation_allowed s.agent team) (λ _.
      or_raise (delegate_input s.agent sub_prompt)
        (λ _. delegates s.agent sub_prompt (λ r. or_raise r next)))

module _ {O : Type 0} (normalize_artifact_markdown : String → String) (team : Team) where
  -- The loop over the steps in order.
  unfoldable pub run_steps :
      List DelegationStep
      → List DelegationStep
      → String
      → List ArtifactRef
      → (List DelegationStep → List ArtifactRef → Agent O)
      → Agent O
  run_steps [] plan prior_context artifacts next = next plan artifacts
  run_steps (s ∷ steps) plan prior_context artifacts next =
      delegate_step team s prior_context (λ result.
        run_steps steps (mark_completed s.place plan)
          (chain_output prior_context s.agent result.output)
          (artifacts
            ++ record {
              id = result.sub_task_id;
              type = s.artifact_type;
              path_or_inline = normalize_artifact_markdown result.output;
            }
              ∷ [])
          next)

  -- What follows the coordinator's own call: `none` is an answer that is no CoordinatorOutput.
  unfoldable pub execute_plan : Option CoordinatorOutput → (CoordinatorOutput → Agent O) → Agent O
  execute_plan none next = raises (failure "TypeError")
  execute_plan (some plan) next =
      run_steps (ordered_steps plan.delegation_plan) plan.delegation_plan "" []
        (λ delegation_plan artifacts. next (record {
          summary = plan.summary;
          delegation_plan = delegation_plan;
          citations = plan.citations;
          artifacts = artifacts;
          confidence = plan.confidence;
          open_questions = plan.open_questions;
          assumptions = plan.assumptions;
          total_cost_credits = 0;
        }))

  -- PlanExecutingCoordinator.run; `ask` is the coordinator's agent.
  unfoldable pub coordinator_run :
      (String → Result RunError (Option CoordinatorOutput))
      → Option String
      → String
      → (CoordinatorOutput → Agent O)
      → Agent O
  unfolding or_raise
  coordinator_run ask none user_prompt next =
      or_raise (ask user_prompt) (λ plan. execute_plan plan next)
  coordinator_run ask (some preamble) user_prompt next =
      or_raise (ask (preamble +++ "\n\n" +++ user_prompt)) (λ plan. execute_plan plan next)
