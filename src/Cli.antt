-- ===== src/Cli.antt =====
-- main.go: where the URLs come from, and the dispatch of `run`. Texts are bytes. The file system,
-- standard input and the work on the URLs are parameters.
pub mod Urls
pub mod Lines
pub mod Run
pub mod Flags
pub mod Markdown
mod Tests
