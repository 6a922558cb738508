-- ===== src/Policy.antt =====
-- src/policy.rs: when a message triggers the bot, and the prompt that it becomes.
mod Defs
pub mod Trigger
pub mod Trimming
unfoldable pub use Defs.*
