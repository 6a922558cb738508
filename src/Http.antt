-- ===== src/Http.antt =====
-- The HTTP interface of the bot to its sidecar (src/main.rs).
mod Server
pub mod Access
pub mod Durability
unfoldable pub use Server.*
