-- ===== src/Streams.antt =====
-- What the program uses of the standard streams: `getline`, `>>` into a string and into an
-- `int`, and `<<` of an `int`. A file is the list of its bytes.
mod Decimal
mod Input
pub mod Read
pub use Decimal.*
unfoldable pub use Input.*
