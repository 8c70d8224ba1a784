-- ===== src/Cli/Run.antt =====
-- `run`, `runEpub`, `runMarkdown` and `runHTML`. Progress output is left out. `run` returns what it
-- does last: an error, a call of `writeOutput` or a call of `buildEpub`.
pub mod Title
use deckle.Base.{
  ℕ, zero, suc, ◌+◌, Bool, true, false, not, ◌&&◌, ◌||◌, Option, none, some, ◌>>=◌, List, [], ◌∷◌,
  ◌++◌, length, Text, codes, ◌=?◌, ltb, join, trim_suffix, one_of, if◌then◌else◌,
}
use deckle.Base.Utf8.{trim_bytes}
use deckle.Cli.Urls.{Reader, Collected, after_slash, collect_all_urls}
use deckle.Document.Body.{Combined, no_articles, document, articles_to_html, extract_body_content}
use deckle.Document.Byline.{EpubArticle}
use deckle.Fetch.Pool.{successes}

-- `optimizeOpts`. A width and a quality below 0, which the flags allow, are left out.
pub record OptimizeOpts : Type 0 where
  pub max_width : ℕ
  pub quality : ℕ
  pub grayscale : Bool
  pub skip_image_fetch : Bool

-- The options of the command line. `concurrency` is 0 for an `int` below 1.
pub record CliConfig : Type 0 where
  pub opts : OptimizeOpts
  pub output : Text
  pub title_override : Text
  pub timeout : ℕ
  pub user_agent : Text
  pub format : Text
  pub cover_style : Text
  pub concurrency : ℕ
  pub input_file : Text
  pub stdin_reader : Option Reader
  pub args : List Text

pub data RunError : Type 0 where
  unknown_format epub_needs_output cannot_read no_urls : RunError
  no_articles_converted process_failed markdown_failed : RunError
  -- a slice out of range in `extractBodyContent`
  panic : RunError

pub data Action : Type 0 where
  fail : RunError → Action
  write_output : Text → Text → Action
  build_epub : List EpubArticle → Text → Text → Text → Action

-- The first article's title, or that and " & more"
abbrev pub articles_title : List EpubArticle → Text
articles_title [] = []
articles_title (a ∷ []) = a.title
articles_title (a ∷ b ∷ articles) = a.title ++ codes " & more"

-- The book title of `runEpub`, by the four steps that fill it in while it is empty
unfoldable pub book_title : CliConfig → Text → List EpubArticle → Text
book_title cfg txt_filename articles =
    let t1 = cfg.title_override in
    let t2 = if t1 =? [] && not (txt_filename =? []) then txt_filename else t1 in
    let t3 = if t2 =? [] then articles_title articles else t2 in
    if t3 =? [] then after_slash (trim_suffix cfg.output (codes ".epub")) else t3

abbrev pub is_empty : List Text → Bool
is_empty [] = true
is_empty (_ ∷ _) = false

-- The defaults that `run` fills in
unfoldable pub with_defaults : CliConfig → CliConfig
with_defaults cfg = record cfg {
  format = if cfg.format =? [] then codes "markdown" else cfg.format;
  concurrency = if ltb cfg.concurrency 1 then 5 else cfg.concurrency;
}

-- `fetchMultipleArticles` has a positive concurrency here, and gives `successes` on every schedule.
-- `process_url` is `processURL` with the configuration, the title and the URL; `to_markdown` is the
-- conversion of one HTML text by the markdown library.
module _ (open_file : Text → Option Reader) (to_lower : Text → Text)
    (process_url : CliConfig → Text → Text → Option EpubArticle)
    (to_markdown : Text → Option Text) where
  unfoldable pub run_epub : CliConfig → List Text → Text → Action
  run_epub cfg urls txt_filename = elim (successes (process_url cfg []) urls) [
    | [] ↦ fail no_articles_converted
    | a ∷ rest ↦
        build_epub (a ∷ rest) (book_title cfg txt_filename (a ∷ rest)) cfg.output cfg.cover_style
  ]

  -- `convertArticleToMarkdown`: `none` is a panic, `some none` an error of the conversion.
  unfoldable pub convert_article_to_markdown : EpubArticle → Option (Option Text)
  convert_article_to_markdown a = do
    body ← extract_body_content to_lower a.html
    some (elim (to_markdown body) [ none ↦ none | some md ↦ some (trim_bytes md) ])

  -- The loop of `articlesToMarkdown`, which skips an article that is not converted
  unfoldable pub markdown_parts : List EpubArticle → Option (List Text)
  markdown_parts [] = some []
  markdown_parts (a ∷ articles) = do
    converted ← convert_article_to_markdown a
    rest ← markdown_parts articles
    some (elim converted [ none ↦ rest | some md ↦ md ∷ rest ])

  unfoldable pub write_parts : CliConfig → Option (List Text) → Action
  write_parts cfg none = fail panic
  write_parts cfg (some []) = fail markdown_failed
  write_parts cfg (some (p ∷ parts)) =
      write_output cfg.output (join (p ∷ parts) (codes "\n\n---\n\n") ++ codes "\n")

  unfoldable pub write_article : CliConfig → Option (Option Text) → Action
  write_article cfg none = fail panic
  write_article cfg (some none) = fail markdown_failed
  write_article cfg (some (some md)) = write_output cfg.output (md ++ codes "\n")

  -- `mdCfg`
  abbrev pub markdown_config : CliConfig → CliConfig
  markdown_config cfg = record cfg { opts = record (cfg.opts) { skip_image_fetch = true } }

  unfoldable pub run_markdown : CliConfig → List Text → Action
  run_markdown cfg (url ∷ []) = elim (process_url (markdown_config cfg) cfg.title_override url) [
    | none ↦ fail process_failed
    | some a ↦ write_article cfg (convert_article_to_markdown a)
  ]
  run_markdown cfg urls = elim (successes (process_url (markdown_config cfg) []) urls) [
    | [] ↦ fail no_articles_converted
    | a ∷ rest ↦ write_parts cfg (markdown_parts (a ∷ rest))
  ]

  unfoldable pub write_combined : CliConfig → Option Combined → Action
  write_combined cfg none = fail panic
  write_combined cfg (some no_articles) = fail no_articles_converted
  write_combined cfg (some (document html)) = write_output cfg.output html

  unfoldable pub run_html : CliConfig → List Text → Action
  run_html cfg (url ∷ []) = elim (process_url cfg cfg.title_override url) [
    | none ↦ fail process_failed
    | some a ↦ write_output cfg.output a.html
  ]
  run_html cfg urls = elim (successes (process_url cfg []) urls) [
    | [] ↦ fail no_articles_converted
    | a ∷ rest ↦ write_combined cfg (articles_to_html to_lower (a ∷ rest))
  ]

  -- The second `switch` of `run`, for a format that has passed the first
  unfoldable pub dispatch : CliConfig → Collected → Action
  dispatch cfg c =
      if cfg.format =? codes "epub"
      then run_epub cfg c.urls c.txt_filename
      else if cfg.format =? codes "markdown"
      then run_markdown cfg c.urls
      else run_html cfg c.urls

  unfoldable pub run_collected : CliConfig → Option Collected → Action
  run_collected cfg none = fail cannot_read
  run_collected cfg (some c) = if is_empty c.urls then fail no_urls else dispatch cfg c

  unfoldable pub run_with : CliConfig → Action
  run_with cfg =
      if not (one_of cfg.format ("html" ∷ "markdown" ∷ "epub" ∷ []))
      then fail unknown_format
      else if cfg.format =? codes "epub" && cfg.output =? []
      then fail epub_needs_output
      else run_collected cfg (collect_all_urls open_file cfg.input_file cfg.args cfg.stdin_reader)

  -- `run`
  unfoldable pub run : CliConfig → Action
  run cfg = run_with (with_defaults cfg)
