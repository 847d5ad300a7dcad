-- ===== src/Runtime/Tests.antt =====
-- The theorems about the runtime, at small concrete inputs.
use oriion.Prelude.{
  ◌+◌, ◌≤◌, ◌≡◌, refl, String, true, none, some, List, [], ◌∷◌, All, arith, Result, ok, err,
}
use oriion.Gateway.Router.Models.{resolve_max_tokens}
use oriion.Tasks.Tree.{TaskStatus, queued, running, succeeded, failed, cancelled}
use oriion.Runtime.Budget.{RunError, failure, estimate_step_cost}
use oriion.Runtime.Events.{TaskStreamEvent}
use oriion.Runtime.Events
use oriion.Runtime.Orchestrator.{
  Agent, returns, raises, delegates, TaskRow, World, Run, DelegateResult, run_agent,
}
use oriion.Runtime.Orchestrator.Execute.{start, finish, exit_failed, execute_agent_task}
use oriion.Runtime.Orchestrator.Execute.Ledger.{Ends, execute_agent_task-Ends}
use oriion.Runtime.Orchestrator.Execute.Cap.{LeavesWithin, execute_agent_task_within}
use oriion.Runtime.Orchestrator.Execute.Stop.{IsNotCompleted, cancellation_stops}
use oriion.Runtime.Publisher.{
  no_channel, PublisherCall, publishes, subscribes, calls, received, redis_subscribe,
}
use oriion.Runtime.Stream.{run_delivered}
use oriion.Runtime.Dispatch.{
  Committed, finished, raised, crashed, DispatchCall, posts, delivers, dispatch_calls, Workers,
  Reaches,
}
use oriion.Runtime.Dispatch.Claim.{dispatch_calls_once, claims_race}

abbrev new_row : TaskRow
new_row = record {
  status = running;
  started_at = none;
  completed_at = none;
  total_cost_credits = 0;
  total_input_tokens = 0;
  total_output_tokens = 0;
}

abbrev small_leaf : Result RunError DelegateResult
small_leaf = ok (record {
  sub_task_id = 9;
  output = "a text";
  cost_credits = 1000;
  input_tokens = 40;
  tokens_used = 60;
})

-- Leaves answer at a small cost; there are no hooks. `status` is what each re-read finds.
abbrev world : TaskStatus → World String
world status = record {
  task_id = 7;
  row = some new_row;
  persisted = λ _. ok status;
  leaf = λ _ _ _. small_leaf;
  recorder = none;
  quota_admission = none;
  output_dlp = none;
  memory_extraction = none;
  budget_cap = 50000000;
  started = 1;
  completed = 9;
}

-- The answer of one delegation, or its exception.
abbrev on_answer : Result RunError DelegateResult → Agent String
on_answer (ok r) = returns (some "done")
on_answer (err e) = raises e

abbrev coordinator : Agent String
coordinator = delegates "writer" "Write it." on_answer

execute_agent_task-Ends_example :
    Ends (world running) 2 [] (execute_agent_task (world running) coordinator 2 [])
execute_agent_task-Ends_example = execute_agent_task-Ends (world running) 2 [] coordinator

small_within : LeavesWithin (world running)
unfolding estimate_step_cost resolve_max_tokens
small_within n slug sub_prompt r h = ground (arith, h)

execute_agent_task_within_example :
    (execute_agent_task (world running) coordinator 2 []).1.accumulated_cost ≤ 50000000 + 0
execute_agent_task_within_example =
    execute_agent_task_within (world running) small_within 0 2 [] coordinator refl tt

abbrev started_run : Run
started_run = start (world cancelled) 2 []

cancellation_stops_example :
    IsNotCompleted
      (finish (world cancelled) (run_agent (world cancelled) coordinator started_run)).0
    × ((finish
          (world cancelled)
          (run_agent (world cancelled) coordinator started_run)).1.leaf_outputs
        ≡ started_run.leaf_outputs)
    × ((finish (world cancelled) (run_agent (world cancelled) coordinator started_run)).1.asked
        ≡ started_run.asked)
unfolding start
cancellation_stops_example =
    cancellation_stops (world cancelled) coordinator started_run refl (λ n h. refl)

-- A run that fails at once, with a subscriber from the start and one after the end.
abbrev failing : Agent String
failing = raises (failure "llm_gateway.unavailable")

abbrev event : Events.TaskStreamEventType → Events.Payload → TaskStreamEvent
event type payload = record { event_type = type; task_id = 7; payload = payload }

abbrev failing_stream : List TaskStreamEvent
failing_stream =
    event Events.task_started (Events.at_time 1)
    ∷ event Events.task_failed (Events.error_code "llm_gateway.unavailable" 0)
    ∷ []

abbrev schedule : List PublisherCall
schedule =
    subscribes 7
    ∷ publishes (event Events.task_started (Events.at_time 1))
    ∷ subscribes 8
    ∷ publishes (event Events.task_failed (Events.error_code "llm_gateway.unavailable" 0))
    ∷ subscribes 7
    ∷ []

run_delivered_example :
    All
      (λ q. received q ≡ ((execute_agent_task (world running) failing 2 []).1.stream, true))
      (calls schedule (λ _. no_channel) 7).queues
    × (redis_subscribe ([] ∷ failing_stream ∷ [])
        ≡ ((execute_agent_task (world running) failing 2 []).1.stream, true))
unfolding execute_agent_task start finish exit_failed
run_delivered_example =
    run_delivered (world running) 2 [] failing schedule ([] ∷ failing_stream ∷ [])
      (λ x n h e. ground (arith, e)) refl refl

abbrev queued_task : Committed
queued_task = record { status = queued; dispatched_at = none; dispatches = 0 }

abbrev deliveries : List DispatchCall
deliveries =
    posts 1
    ∷ posts 2
    ∷ delivers crashed
    ∷ delivers (finished succeeded)
    ∷ posts 3
    ∷ delivers (raised failed)
    ∷ []

dispatch_calls_once_example : (dispatch_calls deliveries queued_task).dispatches ≤ 0 + 1
dispatch_calls_once_example =
    dispatch_calls_once deliveries queued_task (tt, (refl, (refl, tt))) refl

claims_race_example :
    (t : Workers) × Reaches (record { committed = queued_task; loaded = [] }) t
    × (t.committed.dispatches ≡ 0 + 2)
claims_race_example =
    claims_race 1 2 (record { committed = queued_task; loaded = [] }) refl refl refl
