-- ===== src/Webex.antt =====
-- The Webex values that the bot handles (the fields of the messenger crate's types that src/main.rs
-- and src/policy.rs read or write), and how src/main.rs classifies a failed call.
mod Types
mod Errors
unfoldable pub use Types.*
unfoldable pub use Errors.*
