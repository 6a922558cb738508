-- ===== src/Bot.antt =====
-- The bot's handling of one event (`BotApp` of src/main.rs).
mod Monad
mod Actions
mod Failures
mod Threads
mod Codex
mod Commands
mod Followup
mod Policies
mod Process
pub mod Settling
pub mod Attempts
pub mod Silence
pub mod Admin
unfoldable pub use Monad.*
unfoldable pub use Actions.*
unfoldable pub use Failures.*
unfoldable pub use Threads.*
unfoldable pub use Codex.*
unfoldable pub use Commands.*
unfoldable pub use Followup.*
unfoldable pub use Policies.*
unfoldable pub use Process.*
