-- ===== src/Security.antt =====
-- backend/src/security and backend/src/runtime/tool_gating.py: which tools an agent may use, and what
-- the injection scan makes of a text.
pub mod Tools
pub mod Injection
mod Tests
