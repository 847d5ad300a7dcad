-- ===== src/Runtime.antt =====
-- backend/src/runtime: the execution of a task, its budget, its stream of events and the claim of a
-- delivered message.
pub mod Budget
pub mod Events
pub mod Orchestrator
pub mod Publisher
pub mod Stream
pub mod Plan
pub mod Coordinator
pub mod Dispatch
mod Tests
