-- ===== src/Runtime/Stream.antt =====
-- A run of runtime/orchestrator.py as its subscribers see it, over either publisher.
use oriion.Prelude.{ℕ, ◌≡◌, refl, sym, ap, ◌∙◌, inl, inr, true, List, All, Result, ok, err}
use mathlib.Core.Path.{subst}
use oriion.Runtime.Budget.{RunError}
use oriion.Runtime.Events.{TaskStreamEventType, TaskStreamEvent, ends_stream}
use oriion.Runtime.Orchestrator.{Agent, World, Run, Outcome, DomainEvent}
use oriion.Runtime.Orchestrator.Execute.{Returned, cancelled_summary, output_of, execute_agent_task}
use oriion.Runtime.Orchestrator.Execute.Ledger.{IsEnded, Ends, execute_agent_task-Ends}
use oriion.Runtime.Publisher.{no_channel, PublisherCall, calls, received, redis_subscribe}
use oriion.Runtime.Publisher.Delivery.{published_of, IsLedger, calls_deliver}
use oriion.Runtime.Publisher.Batches.{concat, redis_subscribe_all}

module _ {O : Type 0} (w : World O) (depth : ℕ) (before : List Outcome) where
  ended-IsLedger :
      (type : TaskStreamEventType) (outcome : Outcome) (event : DomainEvent) (s : Run)
      → ends_stream type ≡ true
      → IsEnded w depth before type outcome event s
      → IsLedger s.stream
  ended-IsLedger type outcome event s e i = record {
    body = i.body;
    last = i.last;
    is = i.stream_is;
    body_goes_on = i.body_goes_on;
    last_ends = ap (λ t. ends_stream t) i.last_is ∙ e;
  }

  -- What a run raises, if it raises, is nothing that a read of its status raised.
  abbrev pub RaisesNoRead : Result RunError (Returned O) → Type 0
  RaisesNoRead r = (x : RunError) (n : ℕ) → r ≡ err x → w.persisted n ≡ err x → ⊥

  Ends-IsLedger :
      (r : Result RunError (Returned O) × Run)
      → Ends w depth before r
      → RaisesNoRead r.0
      → IsLedger r.1.stream
  Ends-IsLedger (ok (cancelled_summary c), s) e u = ended-IsLedger _ _ _ s refl e
  Ends-IsLedger (ok (output_of o c), s) e u = ended-IsLedger _ _ _ s refl e.0
  Ends-IsLedger (err x, s) (inl (inl e, _)) u = ended-IsLedger _ _ _ s refl e
  Ends-IsLedger (err x, s) (inl (inr e, _)) u = ended-IsLedger _ _ _ s refl e
  Ends-IsLedger (err x, s) (inr (_, (n, e))) u = absurd (u x n refl e)

  -- Every run that does not raise what a read of its status raised is seen whole by every subscriber of
  -- its task, which then stops, whether it completes, fails or is cancelled: over the in-process publisher in whatever order the run's events and the subscriptions come, among calls
  -- for other tasks; and over Redis Streams in whatever batches the entries are read.
  pub run_delivered :
      (agent : Agent O) (cs : List PublisherCall) (batches : List (List TaskStreamEvent))
      → RaisesNoRead (execute_agent_task w agent depth before).0
      → published_of w.task_id cs ≡ (execute_agent_task w agent depth before).1.stream
      → concat batches ≡ (execute_agent_task w agent depth before).1.stream
      → All
          (λ q. received q ≡ ((execute_agent_task w agent depth before).1.stream, true))
          (calls cs (λ _. no_channel) w.task_id).queues
        × (redis_subscribe batches ≡ ((execute_agent_task w agent depth before).1.stream, true))
  run_delivered agent cs batches u e f =
      let l =
        Ends-IsLedger (execute_agent_task w agent depth before)
          (execute_agent_task-Ends w depth before agent) u in
      (
        subst
            (λ (es : List TaskStreamEvent).
              All (λ q. received q ≡ (es, true)) (calls cs (λ _. no_channel) w.task_id).queues)
            e (calls_deliver w.task_id cs (subst IsLedger (sym e) l)),
        redis_subscribe_all batches (subst IsLedger (sym f) l)
            ∙ ap (λ (es : List TaskStreamEvent). (es, true)) f,
      )
