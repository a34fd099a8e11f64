-- ===== src/Domain.antt =====
-- crates/homebot-domain.
pub mod Strings
pub mod Bot
pub mod Identity
pub mod Chat
pub mod Conversation
pub mod Naming
pub mod Message
mod Tests
