-- ===== src/Jobs.antt =====
-- The durable store of message jobs (src/message_jobs.rs).
mod Records
mod Disk
mod Files
mod Index
mod Enqueue
mod Access
mod Health
pub mod Names
pub mod Kept
pub mod Canonical
pub mod Stages
pub mod Outcomes
pub mod Published
pub mod Removed
pub mod Requests
pub mod Refinement
pub mod Reading
pub mod Loading
pub mod Yields
pub mod Serving
unfoldable pub use Records.*
unfoldable pub use Disk.*
unfoldable pub use Files.*
unfoldable pub use Index.*
unfoldable pub use Enqueue.*
unfoldable pub use Access.*
unfoldable pub use Health.*
