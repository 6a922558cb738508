-- ===== src/Reply.antt =====
-- The Markdown that the bot posts: replies, forwarded source messages, and their limits
-- (src/main.rs).
mod Defs
pub mod Bounds
pub mod Mentions
unfoldable pub use Defs.*
