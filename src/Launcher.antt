-- ===== src/Launcher.antt =====
-- The protocol between the bot and the launcher of isolated runs (src/launcher_protocol.rs).
mod Messages
mod Validation
mod Frames
pub mod Bounded
pub mod RoundTrip
unfoldable pub use Messages.*
unfoldable pub use Validation.*
unfoldable pub use Frames.*
