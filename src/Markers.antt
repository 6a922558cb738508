-- ===== src/Markers.antt =====
-- The hidden markers by which the bot recognises its own messages (src/main.rs).
mod Defs
pub mod RoundTrip
pub mod Matching
unfoldable pub use Defs.*
