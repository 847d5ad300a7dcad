-- ===== src/Billing.antt =====
-- backend/src/billing, and the cost writer of backend/src/llm_gateway that shares its ledger:
-- balances, subscriptions, quotas.
pub mod Ledger
pub mod Pricing
pub mod Subscriptions
pub mod Quota
pub mod Cost
pub mod Books
mod Tests
