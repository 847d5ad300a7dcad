-- ===== src/Runtime/Publisher.antt =====
-- runtime/sse_publisher.py and runtime/redis_sse_publisher.py: who receives the events of a task. A
-- subscriber's queue is kept as all that was ever put on it; None is the sentinel.
pub mod Delivery
pub mod Batches
use oriion.Prelude.{
  ℕ, Bool, true, false, ◌||◌, Option, none, some, List, [], ◌∷◌, ◌++◌, map, ◌==◌, if◌then◌else◌,
}
use oriion.Runtime.Events.{TaskStreamEvent, is_last}

-- What InProcessSSEPublisher holds of one task.
pub record Channel : Type 0 where
  pub queues : List (List (Option TaskStreamEvent))
  pub drain : List TaskStreamEvent
  pub completed : Bool

abbrev pub no_channel : Channel
no_channel = record { queues = []; drain = []; completed = false }

abbrev sentinel_if : Bool → List (Option TaskStreamEvent)
sentinel_if b = if b then none ∷ [] else []

put_on :
    Bool
    → TaskStreamEvent
    → List (List (Option TaskStreamEvent))
    → List (List (Option TaskStreamEvent))
put_on completed e [] = []
put_on completed e (q ∷ qs) = (q ++ some e ∷ sentinel_if completed) ∷ put_on completed e qs

publish_on : TaskStreamEvent → Channel → Channel
unfolding put_on
publish_on e c =
    let completed = c.completed || is_last e in
    record {
      queues = put_on completed e c.queues;
      drain = c.drain ++ e ∷ [];
      completed = completed;
    }

-- The start of a subscription: a new queue, with the drain replayed on it.
subscribe_on : Channel → Channel
subscribe_on c = record c {
  queues = c.queues ++ (map some c.drain ++ sentinel_if c.completed) ∷ [];
}

abbrev pub Publisher : Type 0
Publisher = ℕ → Channel

abbrev at_task : ℕ → (Channel → Channel) → Publisher → Publisher
at_task id f p k = if k == id then f (p k) else p k

pub data PublisherCall : Type 0 where
  publishes : TaskStreamEvent → PublisherCall
  subscribes : ℕ → PublisherCall

unfoldable pub call : PublisherCall → Publisher → Publisher
unfolding publish_on subscribe_on
call (publishes e) p = at_task e.task_id (publish_on e) p
call (subscribes id) p = at_task id subscribe_on p

unfoldable pub calls : List PublisherCall → Publisher → Publisher
unfolding call
calls [] p = p
calls (c ∷ cs) p = calls cs (call c p)

-- What a subscriber yields from its queue, and whether it stops.
unfoldable pub received : List (Option TaskStreamEvent) → List TaskStreamEvent × Bool
received [] = ([], false)
received (none ∷ q) = ([], true)
received (some e ∷ q) = let (es, stopped) = received q in (e ∷ es, stopped)

-- RedisSSEPublisher.subscribe: the entries of the task's stream come from its start, in whatever
-- batches XREAD returns them; an empty batch is a block or poll that timed out.
from_batch : List TaskStreamEvent → List TaskStreamEvent × Bool → List TaskStreamEvent × Bool
from_batch [] rest = rest
from_batch (e ∷ es) rest =
    let (more, stopped) = from_batch es rest in
    if is_last e then (e ∷ [], true) else (e ∷ more, stopped)

unfoldable pub redis_subscribe : List (List TaskStreamEvent) → List TaskStreamEvent × Bool
unfolding from_batch
redis_subscribe [] = ([], false)
redis_subscribe (batch ∷ batches) = from_batch batch (redis_subscribe batches)
