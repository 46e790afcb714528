-- ===== src/Text.antt =====
-- Go strings as byte sequences, with what the program uses of `strings`, `unicode/utf8` and `==`.
mod Defs
mod Equality
mod Trim
mod Ascii
unfoldable pub use Defs.*
unfoldable pub use Equality.*
unfoldable pub use Trim.*
unfoldable pub use Ascii.*
