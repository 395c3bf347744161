-- ===== src/Text.antt =====
-- Go strings and byte slices: a `string` or `[]byte` is its list of bytes.
mod Order
mod Search
pub mod Utf8
pub mod Base64
pub mod Hex
pub mod Decimal
pub mod Words
unfoldable pub use Order.*
unfoldable pub use Search.*
