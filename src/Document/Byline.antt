-- ===== src/Document/Byline.antt =====
-- `sourceInfo`, `epubArticle` and `formatByline`.
use deckle.Base.{
  Option, none, some, List, [], ◌∷◌, ◌++◌, Text, codes, ◌=?◌, trim_prefix, trim_suffix, join,
  if◌then◌else◌,
}
use deckle.Document.Escape.{escape_string}

-- A `time.Time`, as the two layouts in which the program prints it: "January 2, 2006" and RFC 3339.
pub record PublishedTime : Type 0 where
  pub long_date : Text
  pub rfc_3339 : Text

pub record SourceInfo : Type 0 where
  pub url : Text
  pub byline : Text
  pub site_name : Text
  pub published_time : Option PublishedTime

pub record EpubArticle : Type 0 where
  pub html : Text
  pub title : Text
  pub source : SourceInfo

-- " · ", in UTF-8
abbrev pub separator : Text
separator = b' ' ∷ 0xc2 ∷ 0xb7 ∷ b' ' ∷ []

abbrev date_part : Option PublishedTime → List Text
date_part none = []
date_part (some t) = escape_string t.long_date ∷ []

abbrev text_part : Text → List Text
text_part t = if t =? [] then [] else escape_string t ∷ []

-- The metadata that is there: date, byline, site.
unfoldable pub meta_parts : SourceInfo → List Text
meta_parts src = date_part src.published_time ++ (text_part src.byline ++ text_part src.site_name)

-- The URL without its scheme and its last slash
unfoldable pub display_url : Text → Text
display_url url =
    trim_suffix (trim_prefix (trim_prefix url (codes "https://")) (codes "http://")) (codes "/")

abbrev pub link_to : Text → Text
link_to url =
    codes "<a href=\""
    ++ (escape_string url ++ (codes "\">" ++ (escape_string (display_url url) ++ codes "</a>")))

-- The metadata and the link, as `formatByline` and `buildTOCBody` both build it
unfoldable pub meta_line : SourceInfo → Text
meta_line src =
    let meta = join (meta_parts src) separator in
    if src.url =? []
    then meta
    else if meta =? []
    then link_to src.url
    else meta ++ (codes "<br/>" ++ link_to src.url)

-- `formatByline`
unfoldable pub format_byline : SourceInfo → Text
format_byline src =
    if meta_line src =? []
    then []
    else codes "<p class=\"byline\">" ++ (meta_line src ++ codes "</p>")
