-- ===== src/Text.antt =====
-- Rust's `str` as the list of its Unicode scalar values, with the methods that the bot calls.
mod Trim
mod Defs
pub mod Replace
pub mod Utf8
unfoldable pub use Defs.*
unfoldable pub use Trim.*
unfoldable pub use Replace.*
unfoldable pub use Utf8.{encode_char, as_bytes, byte_len, from_utf8, IsScalar}
