-- ===== src/Iam.antt =====
-- backend/src/iam: sessions, refresh tokens and their rotation.
pub mod Tokens
pub mod Auth
pub mod Accounts
pub mod SecondFactor
pub mod MagicLink
pub mod Recovery
mod Tests
mod AccountTests
