-- ===== src/Tasks.antt =====
-- backend/src/tasks: the tree of tasks, cancellation and the transactional outbox.
pub mod Tree
pub mod Service
pub mod Relay
mod Tests
