-- ===== src/Fetch.antt =====
-- `fetchMultipleArticles` of main.go: one goroutine for each URL, at most `concurrency` of which
-- are past the semaphore. `processURL` is the outcome that a goroutine gets for its URL.
pub mod Pool
pub mod Bounds
pub mod Order
pub mod Progress
mod Tests
