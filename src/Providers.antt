-- ===== src/Providers.antt =====
-- crates/homebot-providers: the contracts of provider adapters, and the runtime that routes to them.
pub mod Contracts
pub mod Runtime
pub mod Supervisor
