-- ===== src/Bot/Settling.antt =====
-- How a handler settles its attempt, and what it writes and runs on the way (src/main.rs).
mod Facts
mod Failing
mod Answering
mod Asking
mod Routing
pub use Facts.*
pub use Failing.*
pub use Answering.*
pub use Routing.*
