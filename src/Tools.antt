-- ===== src/Tools.antt =====
-- crates/homebot-tools: capability requests, the policy engine and the tools that it gates.
pub mod Contracts
pub mod Policy
