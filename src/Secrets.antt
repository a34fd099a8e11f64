-- ===== src/Secrets.antt =====
-- crates/homebot-secrets, and its use by the tools.
pub mod Vault
pub mod Memory
pub mod Use
mod Tests
