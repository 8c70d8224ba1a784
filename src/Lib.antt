-- ===== src/Lib.antt =====
-- deckle turns web articles into EPUB, HTML or Markdown files. The command line (main.go) gathers
-- URLs from an input file, the arguments and standard input, fetches the articles in parallel, and
-- hands them to the writer of one format. Connections, also those to a proxy, are made by a dialer
-- that refuses private addresses (ssrf.go, fetch.go). The readable part of a page (readability.go) gets its
-- images embedded and made smaller (imgoptimize.go), and becomes an HTML document with a byline
-- (headings.go). For an EPUB or a combined document the content of its body is cut out again
-- (epub.go), and for an EPUB it is turned into strict XHTML (sanitize.go) and bound with a cover
-- (cover.go).
--
-- Base: the names that the parts share: Boolean tests, lists, texts with the functions of Go's
--   `strings` that the program calls, the decimal print, and the counting of taken candidates.
-- Sanitize: sanitize.go. Tags has its tables, Dom the tree, Attrs the attribute filter, Dl the
--   content model of <dl>, Clean the recursive pass, Xhtml the print and `sanitizeForXHTML`. The
--   source edits one tree in place; here each function returns what becomes of its node, the nodes
--   moved out of it, and the IDs used so far. Invariant and its children carry a property that each
--   emitted node has through the recursion of `clean`, Every is its use for tests of single nodes;
--   Cost and Total measure that recursion. Grammar has the markup that the print should be in,
--   Frame the document that the parser makes of a page, Cut the search for its body, and Result
--   joins them.
-- Ssrf: ssrf.go. `Dialed` is what `safeDialContext` does: an error, or one call of the dialer.
-- Document: headings.go, `extractBodyContent`, `extractH1Title` and `buildTOCBody` of epub.go, and
--   `articlesToHTML` of main.go.
-- Fetch: the goroutines of `fetchMultipleArticles` of main.go, as a step relation, which those of
--   `fetchAndEmbed` are an instance of.
-- Cli: `readURLLines`, `readURLFile`, `collectURLs`, `collectAllURLs`, `run`, `runEpub`,
--   `runMarkdown` and `runHTML` of main.go, the configuration and settings of `main`, and the loops and the
--   renderer of images of markdown.go.
-- Http: fetch.go. Browser has the transport of `newBrowserClient`, Page has `fetchHTML`, Client the
--   set-up of the clients, with `getImageClient` of imgoptimize.go. Of a `utls.Config` the server name
--   and the verification are modelled.
-- Srcset: `pickBestSrcsetURL` of imgoptimize.go, on the matches of its regular expression.
-- Regex: Go's `regexp`, as far as the program's expressions need it: a backtracking search for the
--   leftmost match (`run`, `find`), all matches (`find_all`) and their replacement. Relation says
--   what it means to match, Leftmost and Covers what the searches promise.
-- Imaging: the rest of imgoptimize.go. Optimize has `optimizeImage`, Download `fetchImageData`, Embed
--   `fetchAndEmbed`, Article `processArticleImages`.
-- Epub: `extractImages` and `buildEpub` of epub.go. Library has the interface of go-epub, and the
--   laws that the program relies on, `SetCover` with the section that it adds; Command joins `runEpub` and `buildEpub`.
-- Cover: cover.go. A cover is the list of what is drawn on it. Wrap has the lines of a title,
--   Typographic, Collage and Pattern the three styles, Generate their choice.
-- Process: `processURL` of main.go, `extractArticle` of readability.go, `shortURL` of progress.go.
-- Program: `writeOutput` and `main` of main.go, up to the exit code.
--
-- A text is a list of numbers: the bytes of a Go string, or its code points in Sanitize and Cover,
-- where the source reads runes; Epub converts between the two by parameters. The native numbers
-- stand for `int` where a value is a length or an index; `readLimited` has the wrap-around of
-- `limit+1` written out.
--
-- Fuel: `clean` runs on fuel for its depth, and twice the height of the document is enough. The
-- search for a free ID runs on one candidate more than there are used IDs, which is enough since
-- the candidates differ. The decimal print runs on one digit more than the number.
--
-- `find_all` runs on the length of the text, which is enough if no match is empty, as for the
-- expressions of the program.
--
-- Parameters: the HTML parser and escaping of golang.org/x/net/html, 64-bit floating point numbers,
-- `strings.ToLower` and `strings.ToUpper`, `html.UnescapeString`, base64, SHA-256, the image formats,
-- the fonts, the resolver, the network and the TLS handshake, the file system, go-epub, the
-- readability library and the Markdown converter.
--
-- Not modelled: progress output with `humanSize` and `vprintf`, timeouts, the parsing of flags, the
-- copy of the connection state in fetch.go, and the set-up of the Markdown converter. They are
-- output, or calls of other libraries without a choice of the program's own. Nor are values below 0
-- of -max-width and -quality, which the flags allow.
pub mod Base
pub mod Sanitize
pub mod Ssrf
pub mod Document
pub mod Fetch
pub mod Cli
pub mod Srcset
pub mod Cover
pub mod Http
pub mod Regex
pub mod Imaging
pub mod Epub
pub mod Process
pub mod Program
