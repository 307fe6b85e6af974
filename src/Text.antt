-- ===== src/Text.antt =====
-- The methods of `str` in Rust's standard library that the program calls, over UTF-8 bytes.
mod Split
pub mod ShowLaws
pub mod SplitLaws
pub mod WordsLaws
mod Lines
mod Words
mod Number
unfoldable pub use Split.*
unfoldable pub use Lines.*
unfoldable pub use Words.*
unfoldable pub use Number.*
