-- ===== src/Config.antt =====
-- src/config.rs: the configuration, its validation, and the lookups that the bot makes.
mod Types
mod Paths
mod Codex
mod Room
mod Lease
mod Defs
pub mod Facts
pub mod Separation
pub mod Planned
pub mod Budget
unfoldable pub use Types.*
unfoldable pub use Paths.*
unfoldable pub use Codex.*
unfoldable pub use Room.*
unfoldable pub use Lease.*
unfoldable pub use Defs.*
