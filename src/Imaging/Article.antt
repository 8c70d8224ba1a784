-- ===== src/Imaging/Article.antt =====
-- `processArticleImages`.
pub mod Skipped
use deckle.Base.{
  ℕ, zero, suc, ◌+◌, ◌-◌, ◌*◌, Bool, true, false, ◌&&◌, ◌||◌, Option, none, some, ◌>>=◌, List, [],
  ◌∷◌, ◌++◌, map, Text, codes, ◌=?◌, leb, if◌then◌else◌,
}
use deckle.Cli.Run.{OptimizeOpts}
use deckle.Imaging.Download.{Web, ImageData, fetch_image_data}
use deckle.Imaging.Embed.{fetch_and_embed}
use deckle.Imaging.Optimize.{Codecs, Formats, decode_base_64, optimize_image, try_optimize_data_uri}
use deckle.Imaging.Patterns.{
  data_uri_re, picture_re, data_uri_extract_re, ext_srcset_url_re, alt_re, promote_lazy_src,
}
use deckle.Regex.{Match, Groups, find, get_group, is_blank_byte}
use deckle.Regex.Pieces.{Piece, find_all, replace_all}
use deckle.Srcset
use deckle.Srcset.{pick_best_srcset_url}

-- `fmt.Sscanf(…, "%dw", &w)`: blanks, then digits; a number that is no `int` is an error.
unfoldable pub scan_digits : ℕ → Text → ℕ
scan_digits n [] = n
scan_digits n (c ∷ t) =
    let rest = scan_digits (n * 10 + (c - b'0')) t in if leb b'0' c && leb c b'9' then rest else n

unfoldable pub scan_width : Text → ℕ
scan_width [] = 0
scan_width (c ∷ t) =
    let rest = scan_width t in
    let n = scan_digits 0 (c ∷ t) in
    if is_blank_byte c then rest else if leb 9223372036854775808 n then 0 else n

abbrev pub img_tag : Text → Text → Text
img_tag uri alt = codes "<img src=\"" ++ (uri ++ (codes "\" alt=\"" ++ (alt ++ codes "\">")))

abbrev pub data_uri : Text → Text → Text
data_uri mime encoded = codes "data:" ++ (mime ++ (codes ";base64," ++ encoded))

-- `alt`: the first group, "" if there is no match
abbrev pub alt_of : Option Match → Text
alt_of none = []
alt_of (some m) = get_group 1 m.groups

abbrev pub srcset_match : Piece → Srcset.Match
srcset_match p = record { full = p.whole; url = get_group 1 p.groups }

-- The better of two attempts
abbrev pub or_try {ℓ} : {A : Type ℓ} → Option A → Option A → Option A
or_try none o = o
or_try (some a) o = some a

module _ (c : Codecs) (fm : Formats c) (opts : OptimizeOpts) where
  -- The first data URI that can be optimized, and the first that can be decoded
  unfoldable pub first_optimized : List Piece → Option Text
  first_optimized [] = none
  first_optimized (u ∷ uris) =
      or_try (try_optimize_data_uri c fm (get_group 1 u.groups) (get_group 2 u.groups) opts)
        (first_optimized uris)

  unfoldable pub first_decoded : List Piece → Option Text
  first_decoded [] = none
  first_decoded (u ∷ uris) = elim (decode_base_64 c (get_group 2 u.groups)) [
    | none ↦ first_decoded uris
    | some raw ↦ some (data_uri (get_group 1 u.groups) (c.encode_base_64 raw))
  ]

  -- The image that stands for a downloaded one: optimized, or as it is
  unfoldable pub image_uri : ImageData → Text
  image_uri d = elim (optimize_image c fm d.bytes d.mime opts) [
    | none ↦ data_uri d.mime (c.encode_base_64 d.bytes)
    | some uri ↦ uri
  ]

  -- The URI of an image from the web, if the picture has a URL and the download succeeds
  unfoldable pub downloaded_uri : Web → Text → Option Text
  downloaded_uri web picture =
      let img_url =
        pick_best_srcset_url scan_width
          (map srcset_match (find_all ext_srcset_url_re picture).pieces) in
      let download = do d ← fetch_image_data web img_url; some (image_uri d)
      in if img_url =? [] then none else download

  -- The image of a <picture>: the three attempts in their order
  unfoldable pub picture_uri : Web → Text → Option Text
  picture_uri web picture =
      let uris = (find_all data_uri_extract_re picture).pieces in
      or_try (first_optimized uris) (
        or_try (first_decoded uris)
          (if opts.skip_image_fetch then none else downloaded_uri web picture))

  -- What stands for a <picture>
  unfoldable pub collapse_match : Web → Piece → Text
  collapse_match web p = elim (picture_uri web p.whole) [
    | none ↦ p.whole
    | some uri ↦ img_tag uri (alt_of (find alt_re p.whole))
  ]

  abbrev pub optimized_tag : Text → Groups → Option Text → Text
  optimized_tag whole g none = whole
  optimized_tag whole g (some uri) = get_group 1 g ++ (uri ++ get_group 4 g)

  abbrev pub optimized_match : Text → Option Match → Text
  optimized_match whole none = whole
  optimized_match whole (some m) =
      optimized_tag whole m.groups
        (try_optimize_data_uri c fm (get_group 2 m.groups) (get_group 3 m.groups) opts)

  -- What stands for an <img> with a data URI, which is matched once more
  unfoldable pub optimize_match : Piece → Text
  optimize_match p = optimized_match p.whole (find data_uri_re p.whole)

  -- `processArticleImages`
  unfoldable pub process_article_images : Web → Text → Text
  process_article_images web html =
      let promoted = promote_lazy_src html in
      let fetched = if opts.skip_image_fetch then promoted else fetch_and_embed web c promoted in
      let collapsed = replace_all picture_re (collapse_match web) fetched in
      replace_all data_uri_re optimize_match collapsed
