-- ===== src/Imaging.antt =====
-- imgoptimize.go: what becomes of the images of an article. Texts are bytes. The image formats,
-- base64, HTTP and floating point numbers are parameters. Messages, and the counts that only they
-- print, are left out.
pub mod Optimize
pub mod Patterns
pub mod Download
pub mod Embed
pub mod Article
mod Tests
