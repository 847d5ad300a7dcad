-- ===== src/Gateway.antt =====
-- backend/src/llm_gateway: provider circuits, and routing with failover.
pub mod Circuit
pub mod Router
mod Tests
