-- ===== src/Imaging/Embed.antt =====
-- `fetchAndEmbed`: external images become data URIs.
pub mod Laws
pub mod Schedule
use deckle.Base.{
  ℕ, ltb, Option, none, some, List, [], ◌∷◌, ◌++◌, map, Text, codes, ◌=?◌, if◌then◌else◌,
}
use deckle.Fetch.Pool.{Worker, started}
use deckle.Imaging.Download.{Web, FetchResult, fetch_one_image}
use deckle.Imaging.Optimize.{Codecs}
use deckle.Imaging.Patterns.{ext_img_re}
use deckle.Regex.{get_group}
use deckle.Regex.Pieces.{Piece, Pieces, find_all}

-- What is written for a match: the tag with the image, or the match if there is none.
unfoldable pub embedded : Piece → FetchResult → Text
embedded p r =
    if r.encoded =? []
    then p.whole
    else get_group 1 p.groups
      ++ (codes "data:" ++ (r.mime ++ (codes ";base64," ++ (r.encoded ++ get_group 3 p.groups))))

-- The loop that rebuilds the text. There are as many results as matches.
unfoldable pub rebuild : List Piece → List FetchResult → Text → Text
rebuild [] results tail = tail
rebuild (p ∷ ps) [] tail = p.gap ++ (p.whole ++ rebuild ps [] tail)
rebuild (p ∷ ps) (r ∷ results) tail = p.gap ++ (embedded p r ++ rebuild ps results tail)

-- `imgURL` of a match
abbrev pub url_of : Piece → Text
url_of p = get_group 2 p.groups

-- `results[i]`, which is empty until it is stored
abbrev pub result_of : Option FetchResult → FetchResult
result_of none = record { mime = []; encoded = [] }
result_of (some r) = r

-- The capacity of `sem`
abbrev pub capacity : ℕ → ℕ
capacity concurrency = if ltb concurrency 1 then 1 else concurrency

-- The goroutines that the loop over the matches starts, as those of Fetch
abbrev pub downloads : Web → Codecs → Text → List (Worker FetchResult)
downloads web c html =
    started (λ url. some (fetch_one_image web c url)) (map url_of (find_all ext_img_re html).pieces)

-- What is built from the results once `wg.Wait()` has returned
unfoldable pub embed_results : Text → List (Worker FetchResult) → Text
embed_results html ws =
    let ps = find_all ext_img_re html in rebuild ps.pieces (map (λ w. result_of w.slot) ws) ps.tail

-- `fetchAndEmbed`, with each result in its place
unfoldable pub fetch_and_embed : Web → Codecs → Text → Text
fetch_and_embed web c html =
    let ps = find_all ext_img_re html in
    rebuild ps.pieces (map (λ p. fetch_one_image web c (url_of p)) ps.pieces) ps.tail
