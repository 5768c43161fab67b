-- ===== src/Strings.antt =====
-- libkern/string.c: the portable memory and string functions.
mod Defs
mod Results
mod Tests
unfoldable pub use Defs.*
