-- ===== src/Sanitize.antt =====
-- sanitize.go: HTML from the web is turned into XHTML for an EPUB. Texts here are code points.
pub mod Tags
pub mod Dom
pub mod Attrs
pub mod Dl
pub mod Clean
pub mod Xhtml
pub mod Ids
pub mod Fits
pub mod Invariant
pub mod Unique
pub mod Cost
pub mod Total
pub mod Every
pub mod Allowed
pub mod Images
pub mod DlContent
pub mod Grammar
pub mod Sound
pub mod Printed
pub mod Frame
pub mod Cut
pub mod Result
pub mod Output
pub mod Nesting
mod Tests
