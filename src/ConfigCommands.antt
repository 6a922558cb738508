-- ===== src/ConfigCommands.antt =====
-- src/config_commands.rs: the parser of the `/config` commands, and who may use which.
mod Defs
pub mod Parsing
pub mod Permissions
unfoldable pub use Defs.*
