-- ===== src/Jenkins.antt =====
-- Replies that show Jenkins diagnostics (src/main.rs).
mod Words
mod Render
mod Verify
pub mod Escaping
pub mod Brackets
pub mod Links
pub mod Evidence
unfoldable pub use Words.*
unfoldable pub use Render.*
unfoldable pub use Verify.*
