-- ===== src/Runtime/Budget.antt =====
-- runtime/budget_guard.py, and estimate_step_cost of runtime/orchestrator.py. Costs are millionths of
-- a credit.
use oriion.Prelude.{ℕ, ◌+◌, ◌*◌, String, ltb, if◌then◌else◌, Result, ok, err}
use oriion.Gateway.Router.Models.{resolve_max_tokens}

-- What ends a run: the cancellation of its task, or any other exception, by its code.
pub data RunError : Type 0 where
  task_cancelled : RunError
  failure : String → RunError

abbrev pub default_task_cap : ℕ
default_task_cap = 50000000

abbrev pub budget_exceeded : RunError
budget_exceeded = failure "tasks.budget_exceeded"

unfoldable pub check_budget : ℕ → ℕ → ℕ → Result RunError Unit
check_budget accumulated_cost pending_cost cap =
    if ltb cap (accumulated_cost + pending_cost) then err budget_exceeded else ok tt

unfoldable pub estimate_step_cost : String → ℕ
estimate_step_cost slug = resolve_max_tokens slug * 110
