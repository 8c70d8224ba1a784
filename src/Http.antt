-- ===== src/Http.antt =====
-- fetch.go. Here: `readLimited`. A reader gives its bytes, and then ends or fails.
pub mod Limit
pub mod Browser
pub mod Page
pub mod Client
mod Tests
use deckle.Base.{
  ℕ, ◌+◌, Bool, true, false, ◌&&◌, Option, none, some, ◌>>=◌, ◌==◌, ltb, leb, length, take, Text,
  if◌then◌else◌,
}
use deckle.Cli.Urls.{Reader}

-- `io.ReadAll`, with `none` for the error
unfoldable pub read_all : Reader → Option Text
read_all r = if r.fails then none else some r.content

-- The first value that is no `int64`
abbrev pub int_64_end : ℕ
int_64_end = 9223372036854775808

-- `limit+1`, or 0 for a sum that wraps around to a negative number, with which nothing is read
unfoldable pub one_more : ℕ → ℕ
one_more limit = if leb int_64_end (limit + 1) then 0 else limit + 1

-- `io.LimitReader`: behind its bytes it ends, and does not ask the reader for more.
unfoldable pub limit_reader : Reader → ℕ → Reader
limit_reader r n = record {
  content = take n r.content;
  fails = r.fails && ltb (length r.content) n;
}

unfoldable pub check_length : ℕ → Text → Option Text
check_length limit body = if ltb limit (length body) then none else some body

-- `readLimited`, with `none` for an error, and 0 for a limit that is not positive
unfoldable pub read_limited : Reader → ℕ → Option Text
read_limited r limit =
    let limited = read_all (limit_reader r (one_more limit)) >>= check_length limit in
    if limit == 0 then read_all r else limited
