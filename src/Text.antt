-- ===== src/Text.antt =====
-- Python's `str` as the list of its code points, with the methods that the source calls.
pub mod Chars
pub mod Split
pub mod Number
pub mod Table
unfoldable pub use Chars.*
unfoldable pub use Split.*
unfoldable pub use Number.*
