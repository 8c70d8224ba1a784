-- ===== src/Epub/Assembly.antt =====
-- `buildEpub`: the table of contents, then a section for each article.
pub mod Chapters
pub mod Sections
use deckle.Base.{
  ℕ, zero, suc, ◌+◌, Bool, true, false, not, Option, none, some, ◌>>=◌, List, [], ◌∷◌, ◌++◌, Text,
  codes, ◌=?◌, if◌then◌else◌,
}
use deckle.Base.Decimal.{decimal}
use deckle.Cover.Generate.{Studio, generate_cover}
use deckle.Document.Body.{extract_body_content}
use deckle.Document.Byline.{EpubArticle}
use deckle.Document.Headings.{extract_h_1_title}
use deckle.Document.Toc.{article_file, build_toc_body}
use deckle.Epub.Library.{EpubLibrary, Added}
use deckle.Epub.Pictures.{extract_images}
use deckle.Imaging.Optimize.{Codecs}
use deckle.Sanitize.Attrs.{Floats}
use deckle.Sanitize.Dom.{Node}
use deckle.Sanitize.Xhtml.{sanitize_for_xhtml}

abbrev pub style_sheet : Text
style_sheet =
    codes
      "body { margin: 1em; line-height: 1.5; }\nimg { max-width: 100%; height: auto; }\npre, code { font-size: 0.85em; }\nblockquote { margin-left: 1em; padding-left: 0.5em; border-left: 2px solid #999; }\n.byline { font-size: 0.85em; color: #666; margin-top: -0.5em; margin-bottom: 1.5em; }\n.byline a { color: #666; }\n.toc { list-style-type: none; padding-left: 0; }\n.toc li { margin-bottom: 1.2em; }\n.toc a { text-decoration: none; }\n.toc-meta { font-size: 0.85em; color: #666; margin-top: 0.1em; }\n.toc-meta a { color: #666; }"

-- What `generateCover` needs, `strings.ToLower`, and what `sanitizeForXHTML` needs: the conversions between a
-- Go string and its runes, floating point numbers, the parser and its escaping.
pub record Services : Type 1 where
  pub studio : Studio
  pub to_lower : Text → Text
  pub to_runes : Text → Text
  pub from_runes : Text → Text
  pub floats : Floats
  pub parse : Text → Option Node
  pub escape : Text → Text

-- `sanitizeForXHTML` on bytes. `none` does not come from it.
abbrev pub sanitized : Services → Text → Text
sanitized sv body = elim (sanitize_for_xhtml sv.floats sv.parse sv.escape (sv.to_runes body)) [
  | none ↦ body
  | some xhtml ↦ sv.from_runes xhtml
]

-- How `buildEpub` ends: `cannot_create` and `cannot_write` are its errors.
pub data Outcome (State : Type 0) : Type 0 where
  cannot_create panic : Outcome State
  cannot_write written : State → Outcome State

module _ (lib : EpubLibrary) (c : Codecs) (sv : Services) where
  abbrev pub png_uri : Text → Text
  png_uri png = codes "data:image/png;base64," ++ c.encode_base_64 png

  unfoldable pub with_cover_image : Added lib.State → lib.State
  with_cover_image a = elim (a.path) [ none ↦ a.book | some path ↦ lib.set_cover path [] a.book ]

  -- The cover, unless the style is "none" or the cover cannot be made
  unfoldable pub add_cover : Text → List EpubArticle → Text → lib.State → lib.State
  add_cover title articles style book =
      if style =? codes "none" then book else elim (generate_cover sv.studio title articles style) [
        | none ↦ book
        | some png ↦ with_cover_image (lib.add_image (png_uri png) (codes "cover.png") book)
      ]

  abbrev pub chapter_title : ℕ → Text → Text
  chapter_title n title = if title =? [] then codes "Article " ++ decimal n else title

  -- One round of the loop over the articles, on the content of the body
  unfoldable pub add_article : Text → ℕ → Text → lib.State → lib.State
  add_article css n body book =
      let images = extract_images lib c n book (sanitized sv body) in
      (lib.add_section images.out (chapter_title n (extract_h_1_title body)) (article_file n) css
        images.loop.book).book

  -- The loop, from the article with this number on; `none` is a panic of `extractBodyContent`
  unfoldable pub add_articles : Text → ℕ → List EpubArticle → lib.State → Option lib.State
  add_articles css n [] book = some book
  add_articles css n (a ∷ articles) book = do
    body ← extract_body_content sv.to_lower a.html
    add_articles css (n + 1) articles (add_article css n body book)

  abbrev pub css_path : Option Text → Text
  css_path none = []
  css_path (some path) = path

  unfoldable pub add_contents : Text → List EpubArticle → lib.State → lib.State
  add_contents css articles book =
      (lib.add_section (build_toc_body articles) (codes "Contents") (codes "contents.xhtml") css
        book).book

  -- What is done with a new book, up to the loop
  unfoldable pub fill_front : Text → List EpubArticle → Text → lib.State → Text × lib.State
  fill_front title articles style book =
      let styled =
        lib.add_css (codes "data:text/css;base64," ++ c.encode_base_64 style_sheet)
          (codes "styles.css") (lib.set_author (codes "deckle") (lib.set_lang (codes "en") book)) in
      let css = css_path styled.path in
      (css, add_contents css articles (add_cover title articles style styled.book))

  unfoldable pub write_book : Text → Option lib.State → Outcome lib.State
  write_book path none = panic
  write_book path (some book) = if lib.can_write path book then written book else cannot_write book

  unfoldable pub fill : Text → List EpubArticle → Text → lib.State → Option lib.State
  fill title articles style book =
      let front = fill_front title articles style book in add_articles front.0 1 articles front.1

  -- `buildEpub`
  unfoldable pub build_epub : List EpubArticle → Text → Text → Text → Outcome lib.State
  build_epub articles title output_path cover_style = elim (lib.new_epub title) [
    | none ↦ cannot_create
    | some book ↦ write_book output_path (fill title articles cover_style book)
  ]
