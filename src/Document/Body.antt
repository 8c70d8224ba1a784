-- ===== src/Document/Body.antt =====
-- `renderFullHTML`, `extractBodyContent` and `articlesToHTML`. `strings.ToLower` is a parameter:
-- on ASCII text it is `map lower_byte`, and on other text it follows the Unicode tables, where a
-- letter and its lower case may differ in length.
use deckle.Base.{
  ℕ, ◌+◌, ◌&&◌, ◌||◌, Option, none, some, ◌>>=◌, List, [], ◌∷◌, ◌++◌, length, drop, take, Text,
  codes, ◌=?◌, ltb, leb, index, contains, join, if◌then◌else◌,
}
use deckle.Document.Byline.{SourceInfo, EpubArticle, PublishedTime}
use deckle.Document.Escape.{escape_string}

unfoldable pub lower_byte : ℕ → ℕ
lower_byte c = if leb b'A' c && leb c b'Z' then c + 32 else c

-- `s[i:]`, with `none` for the panic of a slice out of range
unfoldable pub slice_from : Text → ℕ → Option Text
slice_from s i = if ltb (length s) i then none else some (drop i s)

-- `s[i:j]`
unfoldable pub slice : Text → ℕ → ℕ → Option Text
slice s i n = if ltb (length s) (i + n) then none else some (take n (drop i s))

-- The content from `start` up to the end tag, if there is one
unfoldable pub cut_at : Text → ℕ → Option ℕ → Option Text
cut_at html start none = slice_from html start
cut_at html start (some n) = slice html start n

unfoldable pub cut_body : Text → Text → ℕ → Option Text
cut_body html lower start = do
  tail ← slice_from lower start
  cut_at html start (index tail (codes "</body>"))

-- What follows the search for the end of the <body> tag
unfoldable pub after_tag : Text → Text → ℕ → Option ℕ → Option Text
after_tag html lower start none = some html
after_tag html lower start (some end) = cut_body html lower (start + end + 1)

unfoldable pub body_from : Text → Text → Option ℕ → Option Text
body_from html lower none = some html
body_from html lower (some start) = do
  tag ← slice_from html start
  after_tag html lower start (index tag (codes ">"))

-- `extractBodyContent`, with `none` for a panic
unfoldable pub extract_body_content : (Text → Text) → Text → Option Text
extract_body_content to_lower html =
    body_from html (to_lower html) (index (to_lower html) (codes "<body"))

abbrev pub byline_meta : Text → Text
byline_meta byline =
    if byline =? []
    then []
    else codes "\t<meta name=\"author\" content=\"" ++ (escape_string byline ++ codes "\">\n")

abbrev pub date_meta : Option PublishedTime → Text
date_meta none = []
date_meta (some t) = codes "\t<meta name=\"date\" content=\"" ++ (t.rfc_3339 ++ codes "\">\n")

unfoldable pub head_extra : SourceInfo → Text
head_extra src = byline_meta src.byline ++ date_meta src.published_time

-- The document up to the title, from there to the extra lines of the head, and from there to the body
abbrev pub page_start : Text
page_start =
    codes
      "<!DOCTYPE html>\n<html>\n<head>\n\t<meta charset=\"utf-8\">\n\t<meta name=\"viewport\" content=\"width=device-width, initial-scale=1\">\n\t<title>"

abbrev pub page_style : Text
page_style =
    codes
      "\t<style>\n\t\tbody {\n\t\t\tfont-family: -apple-system, BlinkMacSystemFont, \"Segoe UI\", Roboto, Helvetica, Arial, sans-serif;\n\t\t\tline-height: 1.6;\n\t\t\tcolor: #333;\n\t\t\tmax-width: 800px;\n\t\t\tmargin: 0 auto;\n\t\t\tpadding: 2rem 1rem;\n\t\t}\n\t\timg { max-width: 100%; height: auto; }\n\t\tpre { white-space: pre-wrap; word-wrap: break-word; }\n\t\t.byline { color: #666; font-style: italic; margin-bottom: 2rem; }\n\t\tblockquote { border-left: 4px solid #eee; padding-left: 1rem; margin-left: 0; color: #666; }\n\t</style>\n</head>\n"

abbrev pub page_head : Text → SourceInfo → Text
page_head title src =
    page_start ++ (escape_string title ++ (codes "</title>\n" ++ (head_extra src ++ page_style)))

abbrev pub page_end : Text
page_end = codes "\n</body>\n</html>\n"

-- `renderFullHTML`
unfoldable pub render_full_html : (Text → Text) → Text → Text → SourceInfo → Text
render_full_html to_lower fragment title src =
    let lower = to_lower fragment in
    if contains lower (codes "<html") || contains lower (codes "<!doctype")
    then fragment
    else if contains lower (codes "<body")
    then fragment
    else page_head title src ++ (codes "<body>\n" ++ (fragment ++ page_end))

abbrev no_source : SourceInfo
no_source = record { url = []; byline = []; site_name = []; published_time = none }

unfoldable pub bodies : (Text → Text) → List EpubArticle → Option (List Text)
bodies to_lower [] = some []
bodies to_lower (a ∷ articles) = do
  body ← extract_body_content to_lower a.html
  rest ← bodies to_lower articles
  some (body ∷ rest)

-- What `articlesToHTML` returns: a document, or the error of an empty list.
pub data Combined : Type 0 where
  no_articles : Combined
  document : Text → Combined

-- `articlesToHTML`, with `none` for a panic
unfoldable pub articles_to_html : (Text → Text) → List EpubArticle → Option Combined
articles_to_html to_lower [] = some no_articles
articles_to_html to_lower (a ∷ articles) = do
  parts ← bodies to_lower (a ∷ articles)
  let title = if ltb 1 (length (a ∷ articles)) then a.title ++ codes " & more" else a.title
  some (document (render_full_html to_lower (join parts (codes "\n<hr>\n")) title no_source))
