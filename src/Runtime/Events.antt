-- ===== src/Runtime/Events.antt =====
-- runtime/sse_events.py: the events of a task's stream.
use oriion.Prelude.{ℕ, String, Bool, true, false, not}
use oriion.Prelude.Int.{ℤ}

pub data TaskStreamEventType : Type 0 where
  task_started task_step_started task_step_token task_step_completed : TaskStreamEventType
  task_delegation_started task_delegation_completed task_budget_warning : TaskStreamEventType
  task_completed task_cancelled task_failed : TaskStreamEventType

-- What the frames of a run carry, as far as the run decides it.
pub data Payload : Type 0 where
  at_time : ℕ → Payload
  target : String → Payload
  delegated : String → ℕ → ℕ → ℕ → Payload
  phase : String → ℕ → Payload
  usage : ℤ → Payload
  total : ℕ → Payload
  error_code : String → ℕ → Payload

pub record TaskStreamEvent : Type 0 where
  pub event_type : TaskStreamEventType
  pub task_id : ℕ
  pub payload : Payload

-- The events that end a stream, as both publishers test for them.
abbrev pub ends_stream : TaskStreamEventType → Bool
ends_stream task_completed = true
ends_stream task_cancelled = true
ends_stream task_failed = true
ends_stream _ = false

abbrev pub is_last : TaskStreamEvent → Bool
is_last e = ends_stream e.event_type

abbrev pub goes_on : TaskStreamEvent → Bool
goes_on e = not (is_last e)
