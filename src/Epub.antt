-- ===== src/Epub.antt =====
-- `buildEpub` and `extractImages` of epub.go. The EPUB library is an interface; the
-- parser of `sanitizeForXHTML` and the conversions between bytes and runes are parameters.
pub mod Library
pub mod Pictures
pub mod Assembly
pub mod Command
mod Tests
