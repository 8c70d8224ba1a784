-- ===== src/Process.antt =====
-- `processURL` of main.go, `extractArticle` of readability.go and `shortURL` of progress.go. The
-- readability library is a parameter; log messages are left out.
pub mod Offline
mod Tests
use deckle.Base.{
  ℕ, ltb, Option, none, some, ◌>>=◌, [], ◌++◌, Text, codes, ◌=?◌, length, take, trim_suffix,
  if◌then◌else◌,
}
use deckle.Cli.Run.{CliConfig}
use deckle.Document.Byline.{EpubArticle, SourceInfo, PublishedTime}
use deckle.Document.Headings.{normalize_headings}
use deckle.Http.Page.{Internet, Url, Page, fetch_html}
use deckle.Imaging.Article.{process_article_images}
use deckle.Imaging.Download.{Web}
use deckle.Imaging.Optimize.{Codecs, Formats}
use deckle.Imaging.Patterns.{promote_lazy_src}

pub record ArticleMeta : Type 0 where
  pub title : Text
  pub byline : Text
  pub site_name : Text
  pub published_time : Option PublishedTime

-- What the program reads of a `readability.Article`
pub record Readable : Type 0 where
  pub content : Text
  pub meta : ArticleMeta

-- `readability.FromReader`, `html.UnescapeString` and `strings.ToLower`
pub record TextServices : Type 0 where
  pub from_reader : Text → Url → Option Readable
  pub unescape : Text → Text
  pub to_lower : Text → Text

-- `extractArticle`; `none` is an error
unfoldable pub extract_article : TextServices → Text → Url → Option Readable
extract_article ts html url = do
  a ← ts.from_reader html url
  if a.content =? [] then none else some a

-- `finalTitle`
abbrev pub final_title : Text → Text → Text
final_title title_override title = if title_override =? [] then title else title_override

unfoldable pub source_of : Text → ArticleMeta → SourceInfo
source_of raw_url meta = record {
  url = raw_url;
  byline = meta.byline;
  site_name = meta.site_name;
  published_time = meta.published_time;
}

module _ (ts : TextServices) (net : Internet) (c : Codecs) (fm : Formats c) (web : Web) where
  -- What is made of an article that has been extracted
  unfoldable pub finished : CliConfig → Text → Text → Readable → EpubArticle
  finished cfg title_override raw_url a =
      let title = final_title title_override a.meta.title in
      let src = source_of raw_url a.meta in
      let images = process_article_images c fm cfg.opts web a.content in
      record {
        html = normalize_headings ts.unescape ts.to_lower images title src;
        title = title;
        source = src;
      }

  -- `processURL`, whose results the callers put into an `epubArticle`; `none` is an error
  unfoldable pub process_url : CliConfig → Text → Text → Option EpubArticle
  process_url cfg title_override raw_url = do
    page ← fetch_html net raw_url cfg.user_agent
    a ← extract_article ts (promote_lazy_src page.html) page.url
    some (finished cfg title_override raw_url a)

abbrev pub shortened : Text → Text
shortened display = if ltb 60 (length display) then take 57 display ++ codes "..." else display

-- `shortURL`
unfoldable pub short_url : (Text → Option Url) → Text → Text
short_url parse raw_url = elim (parse raw_url) [
  | none ↦ raw_url
  | some url ↦ shortened (trim_suffix (url.host ++ url.path) (codes "/"))
]
