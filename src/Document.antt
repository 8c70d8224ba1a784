-- ===== src/Document.antt =====
-- headings.go, epub.go and main.go where they build and cut up HTML text: bylines, the document
-- around an article, the content of <body>, and the combined document. Texts are bytes.
pub mod Escape
pub mod Byline
pub mod Toc
pub mod Headings
pub mod Body
pub mod Search
pub mod RoundTrip
pub mod Rendered
pub mod Total
mod Tests
