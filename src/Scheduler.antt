-- ===== src/Scheduler.antt =====
-- The scheduler of the durable message jobs (src/main.rs, with parts of src/message_jobs.rs).
mod Pending
mod Defs
mod Steps
pub mod Bounds
pub mod Deferral
pub mod Waiting
pub mod Listing
pub mod Admission
unfoldable pub use Pending.*
unfoldable pub use Defs.*
unfoldable pub use Steps.*
